-- ===== src/Tests/Acceptor.antt =====
-- paxos/acceptor.c with the in-memory storage over a list as its hash table.
use sciascid_libpaxos_d255f.Base.{
  List, ℕ, ◌<◌, ◌≡◌, refl, sym, ◌∙◌, ◌⊎◌, pos, Option, none, some, [], ◌∷◌, ◌==◌, if_some, some_inj,
  subst, arith,
}
use sciascid_libpaxos_d255f.Types.{
  Accepted, Prepare, Accept, Preempted, Message, promise, preempted,
}
use sciascid_libpaxos_d255f.Accepted.{
  null_value, first, stored, stored_value, stored_values, IsWhole,
}
use sciascid_libpaxos_d255f.KHash.Assoc.{assoc, assoc-IsTable}
use sciascid_libpaxos_d255f.Storage.{StorageApi, IsStorage}
use sciascid_libpaxos_d255f.Storage.Mem
use sciascid_libpaxos_d255f.Storage.Mem.{MemStorage, api}
use sciascid_libpaxos_d255f.Storage.Mem.Laws.{mem-IsStorage, filed-IsValid, records_lem}
use sciascid_libpaxos_d255f.Acceptor.{Acceptor, receive_prepare, receive_accept}
use sciascid_libpaxos_d255f.Acceptor.Convert.{has_aid}
use sciascid_libpaxos_d255f.Acceptor.Service.{receive_repeat}
use sciascid_libpaxos_d255f.Acceptor.Forward.{get_srcid, index}
use sciascid_libpaxos_d255f.Acceptor.Valid.{IsValid, record_at}
use sciascid_libpaxos_d255f.Acceptor.Steps.{Answers}
use sciascid_libpaxos_d255f.Acceptor.Accepting.{AcceptOutcome, receive_accept_lem}
use sciascid_libpaxos_d255f.Acceptor.Preparing.{PrepareOutcome, receive_prepare_lem}
use sciascid_libpaxos_d255f.Acceptor.Promises.{promise_for}
use sciascid_libpaxos_d255f.Acceptor.Repeating.{Repeated, receive_repeat_lem}
use sciascid_libpaxos_d255f.Acceptor.Safety.{Step, Reach, promise_kept}
use sciascid_libpaxos_d255f.Acceptor.Faults.{HasNoValue, prepare_forgets, get_srcid_overread}
use sciascid_libpaxos_d255f.Tests.Samples.{bar, bar-IsWhole, accepted_by, accepted_by-IsWhole}
use sciascid_libpaxos_d255f.Evacceptor.{Output, to_down_accept, handle_accept}
use sciascid_libpaxos_d255f.Evacceptor.Telling.{Told, handle_accept_lem}

abbrev pub mem : StorageApi
mem = api (assoc Accepted)

abbrev pub laws : IsStorage mem
laws = mem-IsStorage (assoc Accepted) (assoc-IsTable Accepted)

-- What acceptor 1 stores when it accepts "bar" with ballot 101 in instance 1.
abbrev pub accepted_bar : Accepted
accepted_bar = accepted_by 1

-- Acceptor 1 with that record.
unfoldable pub with_bar : Acceptor mem
unfolding assoc
with_bar = record {
  id = 1;
  trim_iid = 0;
  subordinates = pos 2;
  store = record { trim_iid = 0; records = (1, accepted_bar) ∷ [] };
}

-- The only record of the acceptor.
only_bar :
    (k : ℕ) (r : Accepted) → record_at mem laws with_bar k ≡ some r → (1 ≡ k) × (accepted_bar ≡ r)
unfolding with_bar assoc
only_bar k r e =
    if_some (λ q. (1 ≡ k) × (accepted_bar ≡ q)) (1 == k) (some accepted_bar) none r
      (sym (records_lem (assoc Accepted) (assoc-IsTable Accepted) with_bar.store k) ∙ e)
      (λ same is. (ground arith, some_inj is)) (λ n. absurd (cc))

pub with_bar-IsValid : IsValid mem laws with_bar
unfolding with_bar assoc stored stored_values stored_value first
with_bar-IsValid = record {
  store_valid = filed-IsValid (assoc Accepted) (assoc-IsTable Accepted) with_bar.store (λ k r e.
      if_some (λ q. (q.iid ≡ k) × IsWhole q × (stored q ≡ q)) (1 == k) (some accepted_bar) none r e
        (λ same is.
          subst (λ q. (q.iid ≡ k) × IsWhole q × (stored q ≡ q)) (some_inj is)
            (ground arith, accepted_by-IsWhole 1, refl))
        (λ n. absurd (cc)));
  own = λ k r e. subst (λ q. first q.aids ≡ some 1) (only_bar k r e).1 refl;
}

-- The acceptor after it has served a prepare request.
abbrev with_ballot : ℕ → Acceptor mem
unfolding with_bar assoc
with_ballot b = record {
  id = 1;
  trim_iid = 0;
  subordinates = pos 2;
  store = record {
    trim_iid = 0;
    records =
        (
          1,
          record accepted_bar {
            ballot_0 = b;
            values = none;
            ballots = some (b ∷ []);
            value_ballots = some (b ∷ []);
          },
        )
        ∷ (1, accepted_bar)
        ∷ [];
  };
}

abbrev prepare_201 : Prepare
prepare_201 = record { src = 0; iid = 1; ballot = 201 }

-- A prepare request with ballot 201 is answered by a promise that reports no value.
prepared_201 :
    receive_prepare mem (pos 2) with_bar prepare_201
    ≡ some (some (promise (promise_for 2 1 201 201 1 null_value)), with_ballot 201)
unfolding receive_prepare with_bar assoc Mem.get Mem.put
prepared_201 = refl

abbrev accept_150 : Accept
accept_150 = record { src = 0; iid = 1; ballot = 150; value = bar }

accept_150_refused :
    receive_accept mem (with_ballot 201) accept_150
    ≡ some (some (preempted (record { aid = 1; iid = 1; ballot = 201 })), with_ballot 201)
unfolding receive_accept with_bar assoc Mem.get
accept_150_refused = refl

receive_prepare_lem_example :
    Answers mem laws
      (PrepareOutcome mem laws (pos 2) with_bar prepare_201)
      (receive_prepare mem (pos 2) with_bar prepare_201)
receive_prepare_lem_example =
    receive_prepare_lem mem laws (pos 2) with_bar prepare_201 with_bar-IsValid

receive_accept_lem_example :
    Answers mem laws
      (AcceptOutcome mem laws with_bar accept_150)
      (receive_accept mem with_bar accept_150)
receive_accept_lem_example =
    receive_accept_lem mem laws with_bar accept_150 with_bar-IsValid bar-IsWhole

receive_repeat_lem_example :
    (out : Option Accepted) × (a' : Acceptor mem) × (receive_repeat mem with_bar 1 ≡ some (out, a'))
    × Repeated mem laws with_bar 1 out a'
receive_repeat_lem_example = receive_repeat_lem mem laws with_bar 1 with_bar-IsValid

promise_kept_example :
    let out : Option Message = some (preempted (record { aid = 1; iid = 1; ballot = 201 })) in
    (out ≡ none) ⊎ ((q : Preempted) × (out ≡ some (preempted q)) × (150 < q.ballot))
unfolding first with_bar assoc
promise_kept_example =
    promise_kept mem laws (pos 2) with_bar (with_ballot 201) (with_ballot 201) (with_ballot 201)
      prepare_201 (promise_for 2 1 201 201 1 null_value) 201 accept_150
      (some (preempted (record { aid = 1; iid = 1; ballot = 201 }))) with_bar-IsValid prepared_201
      refl (Reach.next Reach.here (Step.accepts accept_150 _ bar-IsWhole accept_150_refused))
      bar-IsWhole refl (omega arith) accept_150_refused

record_of_bar : record_at mem laws with_bar 1 ≡ some accepted_bar
unfolding with_bar assoc
record_of_bar = records_lem (assoc Accepted) (assoc-IsTable Accepted) with_bar.store 1

prepare_forgets_example :
    (promise (promise_for 2 1 201 201 1 null_value)
      ≡ promise (promise_for 2 1 201 201 1 null_value))
    × HasNoValue (record_at mem laws (with_ballot 201) 1)
unfolding with_bar assoc
prepare_forgets_example =
    prepare_forgets mem laws (pos 2) with_bar (with_ballot 201) prepare_201 accepted_bar
      (promise (promise_for 2 1 201 201 1 null_value)) with_bar-IsValid record_of_bar (omega arith)
      prepared_201

-- The reply of acceptor 2 to the same request.
abbrev reply_of_2 : Accepted
reply_of_2 = record accepted_bar { aids = some (2 ∷ []) }

get_srcid_overread_example : get_srcid mem reply_of_2 with_bar ≡ none
unfolding has_aid index
get_srcid_overread_example =
    get_srcid_overread (assoc Accepted) (assoc-IsTable Accepted) with_bar reply_of_2 accepted_bar
      (bar ∷ []) 2 0 with_bar-IsValid record_of_bar refl refl refl refl

handle_accept_lem_example :
    (outs : List Output) × (a' : Acceptor mem) × (handle_accept mem with_bar accept_150
      ≡ some (to_down_accept accept_150 ∷ outs, a'))
    × IsValid mem laws a'
    × Told mem laws with_bar accept_150 outs a'
handle_accept_lem_example =
    handle_accept_lem mem laws with_bar accept_150 with_bar-IsValid bar-IsWhole
