-- ===== src/Pack/RoundTrip.antt =====
-- What one node packs, another unpacks: `msgpack_pack_paxos_message` and
-- `msgpack_unpack_paxos_message` of evpaxos/paxos_types_pack.c.
use native.Mathlib.Nat.{mod-eq_of_lt}
use sciascid_libpaxos_d255f.Base.{ℕ, ◌<◌, ◌^◌, refl, [], ◌∷◌}
use sciascid_libpaxos_d255f.Types.{
  Value, Prepare, Accept, Preempted, Repeat, AcceptorState, Message,
}
use sciascid_libpaxos_d255f.Accepted.{WholeValue}
use sciascid_libpaxos_d255f.Msgpack.{uint}
use sciascid_libpaxos_d255f.Pack.{
  pack_prepare, pack_preempted, pack_repeat, pack_trim, pack_acceptor_state, pack_message,
}
use sciascid_libpaxos_d255f.Pack.Unpack.{unpack_message}
use sciascid_libpaxos_d255f.Pack.Elements.{Carries, Carries-whole}
use sciascid_libpaxos_d255f.Pack.Sendable.{Sendable, Arrives}
use sciascid_libpaxos_d255f.Pack.Promise.{promise-Arrives}
use sciascid_libpaxos_d255f.Pack.Record.{accepted-Arrives}

prepare-Arrives : (v : Prepare) → Sendable (Message.prepare v) → Arrives (Message.prepare v)
unfolding pack_message unpack_message
prepare-Arrives v (hs, hi, hb) = record {
  packed = pack_prepare v;
  packs = refl;
  sized = refl;
  unpacks = rw (mod-eq_of_lt hs, mod-eq_of_lt hi, mod-eq_of_lt hb) refl;
}

preempted-Arrives : (v : Preempted) → Sendable (Message.preempted v) → Arrives (Message.preempted v)
unfolding pack_message unpack_message
preempted-Arrives v (ha, hi, hb) = record {
  packed = pack_preempted v;
  packs = refl;
  sized = refl;
  unpacks = rw (mod-eq_of_lt ha, mod-eq_of_lt hi, mod-eq_of_lt hb) refl;
}

repeat-Arrives : (v : Repeat) → Sendable (Message.repeat v) → Arrives (Message.repeat v)
unfolding pack_message unpack_message
repeat-Arrives v (hf, ht) = record {
  packed = pack_repeat v;
  packs = refl;
  sized = refl;
  unpacks = rw (mod-eq_of_lt hf, mod-eq_of_lt ht) refl;
}

trim-Arrives : (iid : ℕ) → iid < 2 ^ 32 → Arrives (Message.trim iid)
unfolding pack_message unpack_message
trim-Arrives iid h = record {
  packed = pack_trim iid;
  packs = refl;
  sized = refl;
  unpacks = rw (mod-eq_of_lt h) refl;
}

acceptor_state-Arrives :
    (v : AcceptorState) → Sendable (Message.acceptor_state v) → Arrives (Message.acceptor_state v)
unfolding pack_message unpack_message
acceptor_state-Arrives v (ha, ht) = record {
  packed = pack_acceptor_state v;
  packs = refl;
  sized = refl;
  unpacks = rw (mod-eq_of_lt ha, mod-eq_of_lt ht) refl;
}

accept-Arrives : (v : Accept) → Sendable (Message.accept v) → Arrives (Message.accept v)
unfolding pack_message unpack_message
accept-Arrives v (hs, hi, hb, hv) = record {
  packed = record {
    size = 5;
    elements = uint 2 ∷ uint v.src ∷ uint v.iid ∷ uint v.ballot ∷ c.element ∷ [];
  };
  packs = rw c.written refl;
  sized = refl;
  unpacks = rw (mod-eq_of_lt hs, mod-eq_of_lt hi, mod-eq_of_lt hb, c.read []) refl;
}
  where
    c : Carries v.value
    c = Carries-whole v.value hv

client_value-Arrives : (v : Value) → WholeValue v → Arrives (Message.client_value v)
unfolding pack_message unpack_message
client_value-Arrives v hv = record {
  packed = record { size = 2; elements = uint 8 ∷ c.element ∷ [] };
  packs = rw c.written refl;
  sized = refl;
  unpacks = rw (c.read []) refl;
}
  where
    c : Carries v
    c = Carries-whole v hv

-- A message that can be sent packs into an array with as many elements as its header says, and
-- unpacks to the same message, but for the pointer of an empty value, and for the source and the
-- unused `ballot_0`, `value_ballot_0` and `value_0` of an accepted record: these are not sent, and
-- unpack to the largest 32-bit number, 0, 0 and the null value.
pub unpack-pack : (m : Message) → Sendable m → Arrives m
unpack-pack (Message.prepare v) s = prepare-Arrives v s
unpack-pack (Message.promise v) (f, w, (vs, e)) = promise-Arrives v vs f w e
unpack-pack (Message.accept v) s = accept-Arrives v s
unpack-pack (Message.accepted v) f = accepted-Arrives v f
unpack-pack (Message.preempted v) s = preempted-Arrives v s
unpack-pack (Message.repeat v) s = repeat-Arrives v s
unpack-pack (Message.trim iid) s = trim-Arrives iid s
unpack-pack (Message.acceptor_state v) s = acceptor_state-Arrives v s
unpack-pack (Message.client_value v) s = client_value-Arrives v s
