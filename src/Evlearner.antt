-- ===== src/Evlearner.antt =====
-- evpaxos/evlearner.c: what a learner does with each message. What is sent to the acceptors is a
-- list of messages, each of which goes to every one of them. `evlearner_check_holes` returns at once.
pub mod Chosen
pub mod Draining
pub mod Handling
use sciascid_libpaxos_d255f.Base.{ℕ, zero, suc, Option, none, some, List, [], ◌∷◌, length, ◌>>=◌}
use sciascid_libpaxos_d255f.Types.{Value, Accepted, Message}
use sciascid_libpaxos_d255f.Accepted.{first}
use sciascid_libpaxos_d255f.KHash.{KHash}
use sciascid_libpaxos_d255f.Learner.{Instance, Learner, receive_accepted, deliver_next}

-- What the delivery callback is called with.
pub record Delivery : Type 0 where
  pub iid : ℕ
  pub value : Value

-- `evlearner_send_trim`
unfoldable pub send_trim : ℕ → List Message
send_trim iid = Message.trim iid ∷ []

module _ (table : KHash Instance) where
  -- `evlearner_deliver_next_closed`, with fuel: at most so many calls of `learner_deliver_next`.
  unfoldable pub deliver_next_closed : ℕ → Learner table → Option (List Delivery × Learner table)
  unfolding deliver_next first
  deliver_next_closed zero l = none
  deliver_next_closed (suc n) l = do
    (out, l') ← deliver_next table l
    elim out [
      | none ↦ some ([], l')
      | some ack ↦ (do
        v ← first ack.values
        (ds, l'') ← deliver_next_closed n l'
        some (record { iid = ack.iid; value = v } ∷ ds, l''))
    ]

  -- `evlearner_handle_accepted`: every delivery takes an instance out of the table, and the last
  -- call delivers none.
  unfoldable pub handle_accepted : Learner table → Accepted → Option (List Delivery × Learner table)
  unfolding receive_accepted deliver_next_closed
  handle_accepted l ack = do
    l' ← receive_accepted table l ack
    deliver_next_closed (suc (length (table.keys l'.instances))) l'
