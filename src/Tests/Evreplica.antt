-- ===== src/Tests/Evreplica.antt =====
-- evpaxos/evreplica.c: a node with the proposer and the learner of the other tests.
use sciascid_libpaxos_d255f.Base.{ℕ, ◌≡◌, refl, none, some, List, [], ◌∷◌, ◌++◌, map, arith}
use sciascid_libpaxos_d255f.Accepted.{null_value, first}
use sciascid_libpaxos_d255f.KHash.Assoc.{assoc}
use sciascid_libpaxos_d255f.Learner.{Learner}
use sciascid_libpaxos_d255f.Learner.Progress.{Received, started}
use sciascid_libpaxos_d255f.Proposer.{Timeval}
use sciascid_libpaxos_d255f.Evlearner.{Delivery}
use sciascid_libpaxos_d255f.Evlearner.Chosen.{Drained}
use sciascid_libpaxos_d255f.Peers.Reading.{Subscription}
use sciascid_libpaxos_d255f.Evreplica.{Replica, delivered, learner_accepted, init_subs}
use sciascid_libpaxos_d255f.Evreplica.Delivering.{Follows, Queued, learner_accepted_lem}
use sciascid_libpaxos_d255f.Evreplica.Dispatching.{Dispatches, init_subs_lem}
use sciascid_libpaxos_d255f.Tests.Samples.{bar, accepted_by, accepted_by-IsWhole}
use sciascid_libpaxos_d255f.Tests.Acceptor.{mem, with_bar}
use sciascid_libpaxos_d255f.Tests.Learner
use sciascid_libpaxos_d255f.Tests.Learner.{heard, heard_one-IsSound, knows, knows-IsValid}
use sciascid_libpaxos_d255f.Tests.Evlearner.{heard_one-Valued, knows-AllValued}
use sciascid_libpaxos_d255f.Tests.Proposer
use sciascid_libpaxos_d255f.Tests.Proposer.{midnight, prepared, prepared-IsReady}
use sciascid_libpaxos_d255f.Tests.Evproposer.{busy}
use sciascid_libpaxos_d255f.Tests.Peers.{group}

-- A node that has heard of one acceptor that has accepted "bar" in instance 1.
replica : Replica mem Learner.table Proposer.table null_value
replica = record {
  acceptor = with_bar;
  proposer = some (record busy { state = prepared });
  learner = knows (heard none);
  done = [];
}

learner_accepted_lem_example :
    (r' : Replica mem Learner.table Proposer.table null_value) × (ds : List Delivery) × (l : Learner
      Learner.table)
    × (learner_accepted mem Learner.table Proposer.table null_value replica (accepted_by 2)
        ≡ some r')
    × Received Learner.table Learner.laws
        (started Learner.table Learner.laws replica.learner (accepted_by 2))
        (accepted_by 2)
        2
        l
    × Drained Learner.table Learner.laws l ds r'.learner
    × (r'.done ≡ [] ++ map delivered ds)
    × Queued mem Learner.table Proposer.table Proposer.laws null_value r'.proposer
    × Follows mem Learner.table Proposer.table Proposer.laws null_value replica.proposer ds
        r'.proposer
    × (r'.acceptor ≡ with_bar)
unfolding replica first knows assoc
learner_accepted_lem_example =
    learner_accepted_lem mem Learner.table Proposer.table Proposer.laws null_value Learner.laws
      replica (accepted_by 2) 2 (bar ∷ []) (knows-IsValid (heard none) heard_one-IsSound refl)
      (knows-AllValued (heard none) heard_one-Valued) (omega arith) (accepted_by-IsWhole 2) refl
      refl (omega arith) refl prepared-IsReady.queue

abbrev no_time : ℕ → Timeval
no_time i = midnight

init_subs_lem_example :
    (subs : List (Subscription (Replica mem Learner.table Proposer.table null_value))) × (init_subs
        mem Learner.table Proposer.table null_value no_time no_time
        (group 0 0)
      ≡ some subs)
    × Dispatches mem Learner.table Proposer.table null_value no_time no_time (group 0 0) subs
init_subs_lem_example =
    init_subs_lem mem Learner.table Proposer.table null_value no_time no_time (group 0 0)
