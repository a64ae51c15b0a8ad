-- ===== src/Evreplica.antt =====
-- evpaxos/evreplica.c: an acceptor, a proposer and a learner in one node, which share its peers. The
-- threads are left out; a node handles one message at a time. `clock` and `later` are what
-- `gettimeofday` gives while a message is received and behind that.
pub mod Submitting
pub mod Delivering
pub mod Dispatching
use sciascid_libpaxos_d255f.Base.{
  ℕ, zero, suc, ◌+◌, Bool, true, false, ◌&&◌, ltb, leb, not, ℤ, pos, negsuc, Option, none, some,
  List, [], ◌∷◌, ◌++◌, map, length, if◌then◌else◌, ◌>>=◌,
}
use sciascid_libpaxos_d255f.Types.{Value, Accepted, Message}
use sciascid_libpaxos_d255f.Storage.{StorageApi}
use sciascid_libpaxos_d255f.KHash.{KHash}
use sciascid_libpaxos_d255f.Acceptor.{Acceptor}
use sciascid_libpaxos_d255f.Learner
use sciascid_libpaxos_d255f.Learner.{Learner}
use sciascid_libpaxos_d255f.Proposer
use sciascid_libpaxos_d255f.Proposer.{Timeval}
use sciascid_libpaxos_d255f.Evacceptor
use sciascid_libpaxos_d255f.Evacceptor.{Output}
use sciascid_libpaxos_d255f.Evlearner
use sciascid_libpaxos_d255f.Evlearner.{Delivery}
use sciascid_libpaxos_d255f.Evproposer
use sciascid_libpaxos_d255f.Evproposer.{Evproposer}
use sciascid_libpaxos_d255f.Peers.{◌==ℤ◌, Address, Peer, find_peer, is_connected}
use sciascid_libpaxos_d255f.Peers.Reading.{Subscription, subscribe}
use sciascid_libpaxos_d255f.Transport.{submit}

-- The loop of `evpaxos_replica_submit` from the acceptor `i` on, with `n` left: the peer that is sent
-- the value. An acceptor that is no peer is NULL, of which `peer_connected` reads the status.
unfoldable pub submit_from : List Peer → ℕ → ℕ → Option (Option Peer)
unfolding find_peer is_connected
submit_from qs zero i = some none
submit_from qs (suc n) i = do
  q ← find_peer qs i
  elim (is_connected q) [ true ↦ some (some q) | false ↦ submit_from qs n (i + 1) ]

-- `evpaxos_replica_submit`: the peer, if one is connected, and the message.
unfoldable pub replica_submit : List Peer → List ℕ → ℕ → Option (Option Peer × Message)
unfolding submit_from submit
replica_submit qs bytes size = do to ← submit_from qs (length qs) 0; some (to, submit bytes size)

-- The test of `evpaxos_replica_init` for a proposer: the own group is at the root, and its number is
-- not positive.
unfoldable pub has_proposer : Address → Bool
has_proposer own =
    (elim own.parentid [ pos n ↦ leb n 0 | negsuc n ↦ true ]) && (own.groupid ==ℤ own.parentid)

-- What a node does that is seen outside.
pub data Effect : Type 0 where
  by_acceptor : Output → Effect
  by_proposer : Message → Effect
  delivered : Delivery → Effect

module _ (s : StorageApi) (learned : KHash Learner.Instance) (table : KHash Proposer.Instance)
    (junk : Value) where
  -- `struct evpaxos_replica`, with what it has done so far, the newest last
  pub record Replica : Type 0 where
    pub acceptor : Acceptor s
    pub proposer : Option (Evproposer table junk)
    pub learner : Learner learned
    pub done : List Effect

  -- `evpaxos_replica_deliver` for each delivery: the proposer moves on.
  unfoldable pub deliver_each :
      List Delivery → Option (Evproposer table junk) → Option (Option (Evproposer table junk))
  unfolding Evproposer.set_instance_id
  deliver_each [] p = some p
  deliver_each (d ∷ ds) p = do
    p' ← Evproposer.set_instance_id table junk p d.iid
    deliver_each ds p'

  -- `evpaxos_replica_set_instance_id`
  unfoldable pub replica_set_instance_id : Replica → ℕ → Option Replica
  unfolding Learner.set_instance_id Evproposer.set_instance_id
  replica_set_instance_id r iid = do
    p ← Evproposer.set_instance_id table junk r.proposer iid
    some (record r { learner = Learner.set_instance_id learned r.learner iid; proposer = p })

  -- What the acceptor of the node has done.
  unfoldable pub with_acceptor : Replica → Option (List Output × Acceptor s) → Option Replica
  with_acceptor r answer = do
    (outs, a) ← answer
    some (record r { acceptor = a; done = r.done ++ map by_acceptor outs })

  -- What the proposer of the node has done.
  unfoldable pub with_proposer :
      Replica → Option (List Message × Evproposer table junk) → Option Replica
  with_proposer r answer = do
    (sent, p) ← answer
    some (record r { proposer = some p; done = r.done ++ map by_proposer sent })

  -- The callbacks of the acceptor, in the order in which `evacceptor_init_internal` subscribes them.
  abbrev pub acceptor_subs : List (Subscription Replica)
  acceptor_subs =
      record {
        type = 0;
        callback = λ msg r. elim msg [
          | Message.prepare v ↦ with_acceptor r (Evacceptor.handle_prepare s r.acceptor v)
          | _ ↦ none
        ];
      }
      ∷ record {
        type = 2;
        callback = λ msg r. elim msg [
          | Message.accept v ↦ with_acceptor r (Evacceptor.handle_accept s r.acceptor v)
          | _ ↦ none
        ];
      }
      ∷ record {
        type = 5;
        callback = λ msg r. elim msg [
          | Message.repeat v ↦ with_acceptor r (Evacceptor.handle_repeat s r.acceptor v)
          | _ ↦ none
        ];
      }
      ∷ record {
        type = 6;
        callback = λ msg r. elim msg [
          | Message.trim v ↦ with_acceptor r (some (Evacceptor.handle_trim s r.acceptor v))
          | _ ↦ none
        ];
      }
      ∷ record {
        type = 1;
        callback = λ msg r. elim msg [
          | Message.promise v ↦ with_acceptor r (Evacceptor.fwd_promise s r.acceptor v)
          | _ ↦ none
        ];
      }
      ∷ record {
        type = 3;
        callback = λ msg r. elim msg [
          | Message.accepted v ↦ with_acceptor r (Evacceptor.fwd_accepted s r.acceptor v)
          | _ ↦ none
        ];
      }
      ∷ record {
        type = 4;
        callback = λ msg r. elim msg [
          | Message.preempted v ↦ with_acceptor r (Evacceptor.fwd_preempted s r.acceptor v)
          | _ ↦ none
        ];
      }
      ∷ []

  -- A callback of the proposer of the node.
  unfoldable pub of_proposer :
      (Evproposer table junk → Option (List Message × Evproposer table junk))
      → Replica
      → Option Replica
  unfolding with_proposer
  of_proposer handle r = do p ← r.proposer; with_proposer r (handle p)

  -- The callbacks of the proposer, in the order in which `evproposer_init_internal` subscribes them.
  abbrev pub proposer_subs : (ℕ → Timeval) → (ℕ → Timeval) → List (Subscription Replica)
  proposer_subs clock later =
      record {
        type = 1;
        callback = λ msg r. elim msg [
          | Message.promise v ↦
              of_proposer (λ p. Evproposer.handle_promise table junk p clock later v) r
          | _ ↦ none
        ];
      }
      ∷ record {
        type = 3;
        callback = λ msg r. elim msg [
          | Message.accepted v ↦
              of_proposer (λ p. Evproposer.handle_accepted table junk p later v) r
          | _ ↦ none
        ];
      }
      ∷ record {
        type = 4;
        callback = λ msg r. elim msg [
          | Message.preempted v ↦
              of_proposer (λ p. Evproposer.handle_preempted table junk p (clock 0) later v) r
          | _ ↦ none
        ];
      }
      ∷ record {
        type = 8;
        callback = λ msg r. elim msg [
          | Message.client_value v ↦
              of_proposer (λ p. Evproposer.handle_client_value table junk p later v) r
          | _ ↦ none
        ];
      }
      ∷ record {
        type = 7;
        callback = λ msg r. elim msg [
          | Message.acceptor_state v ↦
              of_proposer
                (λ p. do p' ← Evproposer.handle_acceptor_state table junk p v; some ([], p')) r
          | _ ↦ none
        ];
      }
      ∷ []

  -- The callback of the learner, with `evpaxos_replica_deliver` for each value.
  unfoldable pub learner_accepted : Replica → Accepted → Option Replica
  unfolding Evlearner.handle_accepted deliver_each
  learner_accepted r v = do
    (ds, l) ← Evlearner.handle_accepted learned r.learner v
    p ← deliver_each ds r.proposer
    some (record r { learner = l; proposer = p; done = r.done ++ map delivered ds })

  -- The callback that `evlearner_init_internal` subscribes.
  abbrev pub learner_subs : List (Subscription Replica)
  learner_subs =
      record {
        type = 3;
        callback = λ msg r. elim msg [ Message.accepted v ↦ learner_accepted r v | _ ↦ none ];
      }
      ∷ []

  unfoldable pub subscribe_all :
      List (Subscription Replica)
      → List (Subscription Replica)
      → Option (List (Subscription Replica))
  unfolding subscribe
  subscribe_all subs [] = some subs
  subscribe_all subs (new ∷ news) = do subs' ← subscribe subs new; subscribe_all subs' news

  -- The subscriptions that `evpaxos_replica_init` makes for a node at the address `own`.
  unfoldable pub init_subs :
      (ℕ → Timeval) → (ℕ → Timeval) → Address → Option (List (Subscription Replica))
  unfolding subscribe_all has_proposer
  init_subs clock later own = do
    subs₁ ← subscribe_all [] acceptor_subs
    subs₂ ← if has_proposer own then subscribe_all subs₁ (proposer_subs clock later) else some subs₁
    subscribe_all subs₂ learner_subs
