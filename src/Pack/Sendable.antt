-- ===== src/Pack/Sendable.antt =====
-- Which messages evpaxos/paxos_types_pack.c can send, and what arrives.
use sciascid_libpaxos_d255f.Base.{
  ℕ, ◌+◌, ◌*◌, ◌-◌, ◌<◌, ◌^◌, ◌≡◌, u32_mod, some, List, ◌++◌, length, arith, length-append,
}
use sciascid_libpaxos_d255f.Types.{Value, Accepted, Message}
use sciascid_libpaxos_d255f.Accepted.{null_value, WholeValue, IsWhole, stored_value, stored_values}
use sciascid_libpaxos_d255f.Msgpack.{Object, Packed}
use sciascid_libpaxos_d255f.Pack.{pack_message}
use sciascid_libpaxos_d255f.Pack.Unpack.{unpack_message}
use sciascid_libpaxos_d255f.Pack.Elements.{Words}

-- The numbers of a record fit into their fields, and its arrays into a message.
pub record Fits (a : Accepted) : Type 0 where
  pub whole : IsWhole a
  pub src_fits : a.src < 2 ^ 32
  pub iid_fits : a.iid < 2 ^ 32
  pub ballot_0_fits : a.ballot_0 < 2 ^ 32
  pub value_ballot_0_fits : a.value_ballot_0 < 2 ^ 32
  pub few_aids : 4 * a.n_aids + 7 < 2 ^ 32
  pub aids_fit : Words a.aids
  pub ballots_fit : Words a.ballots
  pub value_ballots_fit : Words a.value_ballots

-- What can be sent: a promise needs its values, which the code reads without a test for NULL.
abbrev pub Sendable : Message → Type 0
Sendable (Message.prepare v) = (v.src < 2 ^ 32) × (v.iid < 2 ^ 32) × (v.ballot < 2 ^ 32)
Sendable (Message.promise v) =
    Fits v × WholeValue v.value_0 × ((vs : List Value) × (v.values ≡ some vs))
Sendable (Message.accept v) =
    (v.src < 2 ^ 32) × (v.iid < 2 ^ 32) × (v.ballot < 2 ^ 32) × WholeValue v.value
Sendable (Message.accepted v) = Fits v
Sendable (Message.preempted v) = (v.aid < 2 ^ 32) × (v.iid < 2 ^ 32) × (v.ballot < 2 ^ 32)
Sendable (Message.repeat v) = (v.from < 2 ^ 32) × (v.to < 2 ^ 32)
Sendable (Message.trim iid) = iid < 2 ^ 32
Sendable (Message.acceptor_state v) = (v.aid < 2 ^ 32) × (v.trim_iid < 2 ^ 32)
Sendable (Message.client_value v) = WholeValue v

-- What arrives: an empty value loses its pointer, and an accepted record its source and the two
-- fields that are not sent.
abbrev pub received : Message → Message
received (Message.prepare v) = Message.prepare v
received (Message.promise v) =
    Message.promise (record v { value_0 = stored_value v.value_0; values = stored_values v.values })
received (Message.accept v) = Message.accept (record v { value = stored_value v.value })
received (Message.accepted v) = Message.accepted (record v {
  src = u32_mod - 1;
  ballot_0 = 0;
  value_ballot_0 = 0;
  value_0 = null_value;
  values = stored_values v.values;
})
received (Message.preempted v) = Message.preempted v
received (Message.repeat v) = Message.repeat v
received (Message.trim iid) = Message.trim iid
received (Message.acceptor_state v) = Message.acceptor_state v
received (Message.client_value v) = Message.client_value (stored_value v)

-- The packed form has as many elements as it says, and unpacks to what arrives.
pub record Arrives (m : Message) : Type 0 where
  pub packed : Packed
  pub packs : pack_message m ≡ some packed
  pub sized : length packed.elements ≡ packed.size
  pub unpacks : unpack_message packed.elements ≡ some (received m)

-- The four loops of a message write `4 * n` elements in all, and read their arrays back.
pub length-four :
    (n : ℕ) (xs bs cs ds : List Object)
    → length xs ≡ n
    → length bs ≡ n
    → length cs ≡ n
    → length ds ≡ n
    → length (xs ++ (bs ++ (cs ++ ds))) ≡ 4 * n
length-four n xs bs cs ds ha hb hc hd = omega (
  arith,
  length-append xs (bs ++ (cs ++ ds)),
  length-append bs (cs ++ ds),
  length-append cs ds,
  ha,
  hb,
  hc,
  hd,
)
