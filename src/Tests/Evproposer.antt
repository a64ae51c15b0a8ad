-- ===== src/Tests/Evproposer.antt =====
-- evpaxos/evproposer.c with three acceptors, over a list as the hash table of its proposer.
use sciascid_libpaxos_d255f.Base.{
  zero, suc, ◌-◌, ◌≡◌, ◌⊎◌, refl, true, false, pos, some, List, [], ◌∷◌, leb, if◌then◌else◌, arith,
}
use mathlib.Core.Option
use sciascid_libpaxos_d255f.Types.{Accept, Message}
use sciascid_libpaxos_d255f.Accepted.{null_value}
use sciascid_libpaxos_d255f.Carray
use sciascid_libpaxos_d255f.KHash.Assoc.{assoc}
use sciascid_libpaxos_d255f.Proposer.{Proposer}
use sciascid_libpaxos_d255f.Proposer.Accepts.{no_values}
use sciascid_libpaxos_d255f.Evproposer.{
  Evproposer, prepared_count, preexecute, accept_each, handle_client_value,
}
use sciascid_libpaxos_d255f.Evproposer.Looping.{accept_each_lem}
use sciascid_libpaxos_d255f.Evproposer.Requests.{Sent}
use sciascid_libpaxos_d255f.Evproposer.Opening.{Below, Opened, preexecute_lem}
use sciascid_libpaxos_d255f.Tests.Samples.{bar}
use sciascid_libpaxos_d255f.Tests.Proposer.{table, laws, midnight, prepared, prepared-IsReady}

accept_each_lem_example :
    (rs : List Accept) × (p' : Proposer table null_value) × (accept_each table null_value 2 prepared
      ≡ some (rs, p'))
    × Sent table laws null_value prepared rs p'
unfolding prepared assoc
accept_each_lem_example =
    accept_each_lem table laws null_value 2 prepared (λ t k. refl) prepared-IsReady (omega arith)

-- A proposer with one client value and a window of three instances, one of which is open.
unfoldable pub busy : Evproposer table null_value
unfolding prepared
busy = record {
  id = 7;
  preexec_window = pos 3;
  state = record prepared {
    values = record { head = 0; tail = 0; size = 1; count = 1; array = bar ∷ [] };
  };
}

busy-Below : Below table laws null_value busy.state
unfolding busy prepared assoc
busy-Below zero h = absurd (omega arith)
busy-Below (suc zero) h = absurd (omega arith)
busy-Below (suc (suc k)) h = ground arith

preexecute_lem_example :
    (sent : List Message) × (p' : Evproposer table null_value) × (preexecute table null_value busy
        (λ _. midnight)
      ≡ some (sent, p'))
    × (((no_values table null_value busy.state ≡ true) × (sent ≡ []) × (p' ≡ busy))
        ⊎ ((no_values table null_value busy.state ≡ false)
            × Opened table laws null_value
                (3 - prepared_count table null_value busy.state)
                busy.state
                sent
                p'.state
            × (prepared_count table null_value p'.state ≡ (
                if leb 3 (prepared_count table null_value busy.state)
                then prepared_count table null_value busy.state
                else 3))))
unfolding busy prepared
preexecute_lem_example =
    preexecute_lem table laws null_value busy 3 (λ _. midnight) (λ t k. refl) busy-Below refl
      (omega arith)

-- A second value for a proposer whose first instance has promises: the promised value goes out, and
-- three instances are opened.
value_starts :
    (Option.map
      (λ (r : List Message × Evproposer table null_value). r.0)
      (handle_client_value table null_value busy (λ _. midnight) bar))
    ≡ some (
        Message.accept (record { src = 7; iid = 1; ballot = 1007; value = bar })
        ∷ Message.prepare (record { src = 7; iid = 2; ballot = 1007 })
        ∷ Message.prepare (record { src = 7; iid = 3; ballot = 1007 })
        ∷ Message.prepare (record { src = 7; iid = 4; ballot = 1007 })
        ∷ [])
unfolding handle_client_value busy prepared assoc Carray.pop_front
value_starts = refl
