-- ===== src/Tests/Proposer.antt =====
-- paxos/proposer.c with three acceptors, over a list as its hash table.
use sciascid_libpaxos_d255f.Base.{
  Option, if_some, some_inj, sym, ap, ◌∙◌, ◌==◌, ◌≤◌, ◌⊎◌, ℕ, zero, suc, ◌<◌, ◌≡◌, ◌≢◌, refl, none,
  some, [], ◌∷◌, arith,
}
use sciascid_libpaxos_d255f.Types.{Accept, Accepted}
use sciascid_libpaxos_d255f.Accepted.{null_value}
use sciascid_libpaxos_d255f.Quorum.{init}
use sciascid_libpaxos_d255f.Quorum.Marks.{init-IsValid}
use sciascid_libpaxos_d255f.Carray
use sciascid_libpaxos_d255f.KHash.{KHash, IsTable}
use sciascid_libpaxos_d255f.KHash.Assoc.{assoc, assoc-IsTable}
use sciascid_libpaxos_d255f.Proposer.{Instance, Timeval, Proposer, at, receive_promise}
use sciascid_libpaxos_d255f.Proposer.Ballots.{ballot_after, ballots_apart}
use sciascid_libpaxos_d255f.Proposer.Counting.{Entry}
use sciascid_libpaxos_d255f.Proposer.Promises.{Promised, receive_promise_lem}
use mathlib.Core.Option
use sciascid_libpaxos_d255f.Carray.Window.{contents}
use sciascid_libpaxos_d255f.Proposer.Accepts.{accept, set_next_iid}
use sciascid_libpaxos_d255f.Proposer.Trimming.{Moved, set_next_iid_lem}
use sciascid_libpaxos_d255f.Proposer.Accepting.{IsReady, Proposed, accept_lem}
use sciascid_libpaxos_d255f.Tests.Samples.{bar, bar-IsWhole}

abbrev pub table : KHash Instance
table = assoc Instance

abbrev pub laws : IsTable table
laws = assoc-IsTable Instance

abbrev pub midnight : Timeval
midnight = record { tv_sec = 0; tv_usec = 0 }

-- Instance 1 of proposer 7, which waits for promises.
abbrev pending : Instance
pending = record {
  iid = 1;
  ballot = 1007;
  value = none;
  promised_value = none;
  value_ballot = 0;
  quorum = init 3;
  created_at = midnight;
}

waiting : Proposer table null_value
unfolding assoc
waiting = record {
  id = 7;
  acceptors = 3;
  values = Carray.new null_value 2;
  max_trim_iid = 0;
  next_prepare_iid = 1;
  prepare_instances = (1, pending) ∷ [];
  accept_instances = [];
}

-- Acceptor 2 promises, and has accepted "bar" with ballot 1003.
abbrev promise_bar : Accepted
promise_bar = record {
  src = 7;
  iid = 1;
  ballot_0 = 1007;
  value_ballot_0 = 1003;
  n_aids = 1;
  aids = some (2 ∷ []);
  value_0 = null_value;
  values = some (bar ∷ []);
  ballots = some (1007 ∷ []);
  value_ballots = some (1003 ∷ []);
}

promise_bar-Entry : (x : ℕ) → x < 1 → Entry promise_bar 3 1007 x
unfolding at
promise_bar-Entry zero h = record {
  ballot = 1007;
  aid = 2;
  value = bar;
  value_ballot = 1003;
  ballot_at = refl;
  aid_at = refl;
  value_at = refl;
  value_ballot_at = refl;
  no_preemption = omega arith;
  known = omega arith;
  whole = bar-IsWhole;
}
promise_bar-Entry (suc x) h = absurd (omega arith)

receive_promise_lem_example :
    (p' : Proposer table null_value) × (receive_promise table null_value waiting
        (λ _. midnight)
        promise_bar
      ≡ some (none, p'))
    × Promised table laws null_value waiting promise_bar pending p'
unfolding waiting assoc init
receive_promise_lem_example =
    receive_promise_lem table laws null_value waiting (λ _. midnight) promise_bar pending refl
      (init-IsValid 3) promise_bar-Entry

ballots_apart_example :
    (◌≢◌ {A = ℕ} 3 4 → ballot_after 3 5 ≢ ballot_after 4 6) × (ballot_after 3 5 < ballot_after 3 6)
ballots_apart_example =
    ballots_apart 3 4 5 6 (omega arith) (omega arith) (omega arith) (omega arith)

-- The instance after promises of acceptors 0 and 2, which report "bar".
abbrev pub promised_bar : Instance
promised_bar = record {
  iid = 1;
  ballot = 1007;
  value = none;
  promised_value = some bar;
  value_ballot = 1003;
  quorum = record { count = 2; quorum = 2; acceptors = 3; acceptor_ids = 1 ∷ 0 ∷ 1 ∷ [] };
  created_at = midnight;
}

unfoldable pub prepared : Proposer table null_value
unfolding assoc
prepared = record {
  id = 7;
  acceptors = 3;
  values = record { head = 0; tail = 0; size = 1; count = 0; array = null_value ∷ [] };
  max_trim_iid = 0;
  next_prepare_iid = 1;
  prepare_instances = (1, promised_bar) ∷ [];
  accept_instances = [];
}

pub prepared-IsReady : IsReady table laws null_value prepared
unfolding prepared assoc
prepared-IsReady = record {
  keyed = λ k inst e.
      if_some (λ (i : Instance). i.iid ≡ k) (1 == k) (some promised_bar) none inst e
        (λ same is. ap (λ (i : Instance). i.iid) (sym (some_inj is)) ∙ (ground arith))
        (λ n. absurd (cc));
  apart = λ k inst e. refl;
  room = λ k. refl;
  queue = record {
    cells = refl;
    some_room = omega arith;
    head_in = omega arith;
    count_in = omega arith;
    tail_is = refl;
  };
}

accept_lem_example :
    (out : Option Accept) × (p' : Proposer table null_value) × (accept table null_value prepared
      ≡ some (out, p'))
    × Proposed table laws null_value prepared out p'
accept_lem_example = accept_lem table laws null_value prepared prepared-IsReady

-- The promised value is proposed.
proposes_bar :
    Option.map
      (λ (r : Option Accept × Proposer table null_value). r.0)
      (accept table null_value prepared)
    ≡ some (some (record { src = 7; iid = 1; ballot = 1007; value = bar }))
unfolding accept prepared assoc Carray.pop_front
proposes_bar = refl

-- The same where the client's value "bar" stands in the instance.
valued : Proposer table null_value
unfolding prepared assoc
valued = record prepared { prepare_instances = (1, record promised_bar { value = some bar }) ∷ [] }

set_next_iid_lem_example :
    (p' : Proposer table null_value) × (set_next_iid table null_value valued 5 ≡ some p')
    × (((5 ≤ valued.next_prepare_iid) × (p' ≡ valued))
        ⊎ ((valued.next_prepare_iid < 5) × Moved table laws null_value valued 5 p'))
unfolding valued prepared
set_next_iid_lem_example = set_next_iid_lem table laws null_value valued 5 prepared-IsReady.queue

-- The value is in the queue again, and the instance is gone.
value_returns :
    Option.map
      (λ (p : Proposer table null_value). contents null_value p.values)
      (set_next_iid table null_value valued 5)
    ≡ some (bar ∷ [])
unfolding set_next_iid valued prepared assoc Carray.push_back
value_returns = refl
