-- ===== src/Transport.antt =====
-- evpaxos/message.c: messages over a stream of bytes. The bytes that wait in a buffer of libevent are
-- a list; the counters of messages and bytes are left out.
use sciascid_libpaxos_d255f.Base.{ℕ, ◌*◌, Option, none, some, List, [], ◌∷◌, ◌>>=◌}
use sciascid_libpaxos_d255f.Types.{Message}
use sciascid_libpaxos_d255f.Msgpack.{Msgpack, success, more, error}
use sciascid_libpaxos_d255f.Pack.{pack_message}
use sciascid_libpaxos_d255f.Pack.Unpack.{unpack_message}

-- `paxos_submit`: the message that is sent.
unfoldable pub submit : List ℕ → ℕ → Message
submit bytes size = Message.client_value (record { len = size; val = some bytes })

module _ (m : Msgpack) where
  -- `send_paxos_message`: the bytes that are written. The functions that send a message of one kind
  -- only fill in its type.
  unfoldable pub send_message : Message → Option (List ℕ)
  unfolding pack_message
  send_message msg = do p ← pack_message msg; some (m.encode p)

  -- `recv_paxos_message`, with `evbuffer_drain` of libevent as `drain`: the message, where the code returns 1, and what is left in the buffer.
  unfoldable pub recv_message : (ℕ → List ℕ → List ℕ) → List ℕ → Option (Option Message × List ℕ)
  unfolding unpack_message
  recv_message drain [] = some (none, [])
  recv_message drain (b ∷ bs) = elim (m.next (b ∷ bs)) [
    | success os rest ↦ (do msg ← unpack_message os; some (some msg, rest))
    | more ↦ some (none, b ∷ bs)
    | error ↦ some (none, drain (2 * 1024 * 1024) (b ∷ bs))
  ]
