-- ===== src/Peers/Reading.antt =====
-- evpaxos/peers.c: subscriptions, and what is done with the bytes that arrive. `S` is the state that
-- the callbacks change, whatever it is.
use sciascid_libpaxos_d255f.Base.{
  ℕ, zero, suc, ◌==◌, ltb, if◌then◌else◌, Option, none, some, List, [], ◌∷◌, ◌++◌, length, ◌>>=◌,
}
use sciascid_libpaxos_d255f.Types.{Message}
use sciascid_libpaxos_d255f.Msgpack.{Msgpack}
use sciascid_libpaxos_d255f.Transport.{recv_message}

-- `enum paxos_message_type`
unfoldable pub type_of : Message → ℕ
type_of (Message.prepare v) = 0
type_of (Message.promise v) = 1
type_of (Message.accept v) = 2
type_of (Message.accepted v) = 3
type_of (Message.preempted v) = 4
type_of (Message.repeat v) = 5
type_of (Message.trim v) = 6
type_of (Message.acceptor_state v) = 7
type_of (Message.client_value v) = 8

-- `struct subscription`, with its argument inside the callback
pub record Subscription (S : Type 0) : Type 0 where
  pub type : ℕ
  pub callback : Message → S → Option S

-- `peers_subscribe`: the array has 32 places.
unfoldable pub subscribe :
    {S : Type 0} → List (Subscription S) → Subscription S → Option (List (Subscription S))
subscribe subs sub = if ltb (length subs) 32 then some (subs ++ (sub ∷ [])) else none

-- `dispatch_message`
unfoldable pub dispatch : {S : Type 0} → List (Subscription S) → Message → S → Option S
unfolding type_of
dispatch [] msg s = some s
dispatch (sub ∷ subs) msg s = do
  s' ← if sub.type == type_of msg then sub.callback msg s else some s
  dispatch subs msg s'

-- The loop of `on_read`, with fuel: at most so many calls of `recv_paxos_message`. The answer is the
-- bytes that are left, and the state.
unfoldable pub read_each :
    {S : Type 0}
    → Msgpack
    → (ℕ → List ℕ → List ℕ)
    → List (Subscription S)
    → ℕ
    → List ℕ
    → S
    → Option (List ℕ × S)
unfolding recv_message dispatch
read_each m drain subs zero bytes s = none
read_each m drain subs (suc n) bytes s = do
  (out, rest) ← recv_message m drain bytes
  elim out [
    | none ↦ some (rest, s)
    | some msg ↦ (do s' ← dispatch subs msg s; read_each m drain subs n rest s')
  ]

-- `on_read`: every message takes a byte at least, and the last call finds none.
unfoldable pub on_read :
    {S : Type 0}
    → Msgpack
    → (ℕ → List ℕ → List ℕ)
    → List (Subscription S)
    → List ℕ
    → S
    → Option (List ℕ × S)
unfolding read_each
on_read m drain subs bytes s = read_each m drain subs (suc (length bytes)) bytes s
