-- ===== src/Pack.antt =====
-- evpaxos/paxos_types_pack.c: messages as arrays of msgpack objects. Reading an object as if it were
-- of the other kind, or behind the end of the array, is `none`, as is a copy from NULL. The index
-- `i` of the code is the list of the elements from there on. The 16 spare bytes that
-- `msgpack_unpack_string_at` allocates behind a string are left out.
pub mod Unpack
pub mod Elements
pub mod Sendable
pub mod Promise
pub mod Record
pub mod RoundTrip
use sciascid_libpaxos_d255f.Base.{
  ℕ, zero, suc, ◌+◌, ◌*◌, ◌%◌, u32_mod, Bool, true, false, Option, none, some, List, [], ◌∷◌, ◌++◌,
  map, length, replicate, ltb, ◌==◌, if◌then◌else◌, ◌>>=◌, ◌&&◌,
}
use sciascid_libpaxos_d255f.Types.{
  Value, Prepare, Accept, Accepted, Preempted, Repeat, AcceptorState, Message,
}
use sciascid_libpaxos_d255f.Accepted.{null_value, zeroed, read_n, read_ptr}
use sciascid_libpaxos_d255f.Msgpack.{Object, uint, bin, Packed}

-- `msgpack_pack_paxos_value`, with `msgpack_pack_string`
unfoldable pub pack_value : Value → Option Object
unfolding read_n
pack_value v = elim v.val [
  | none ↦ some (bin [])
  | some bs ↦ (do cs ← read_n v.len bs; some (bin cs))
]

-- A loop that packs `n` numbers of an array.
unfoldable pub pack_words : ℕ → Option (List ℕ) → Option (List Object)
unfolding read_ptr
pack_words n p = do ws ← read_ptr p n; some (map uint ws)

-- The same where NULL stands for zeros.
unfoldable pub pack_words_or_zero : ℕ → Option (List ℕ) → Option (List Object)
unfolding pack_words
pack_words_or_zero n none = some (replicate n (uint 0))
pack_words_or_zero n (some ws) = pack_words n (some ws)

-- A loop that packs `n` values of an array.
unfoldable pub pack_each : ℕ → List Value → Option (List Object)
unfolding pack_value
pack_each zero vs = some []
pack_each (suc n) [] = none
pack_each (suc n) (v ∷ vs) = do o ← pack_value v; os ← pack_each n vs; some (o ∷ os)

unfoldable pub pack_values : ℕ → Option (List Value) → Option (List Object)
unfolding pack_each
pack_values n none = if n == 0 then some [] else none
pack_values n (some vs) = pack_each n vs

-- `msgpack_pack_paxos_prepare`
unfoldable pub pack_prepare : Prepare → Packed
pack_prepare v = record {
  size = 4;
  elements = uint 0 ∷ uint v.src ∷ uint v.iid ∷ uint v.ballot ∷ [];
}

-- `msgpack_pack_paxos_promise`
unfoldable pub pack_promise : Accepted → Option Packed
unfolding pack_value pack_words pack_values
pack_promise v = do
  value ← pack_value v.value_0
  ids ← pack_words v.n_aids v.aids
  values ← pack_values v.n_aids v.values
  ballots ← pack_words v.n_aids v.ballots
  value_ballots ← pack_words v.n_aids v.value_ballots
  some (record {
    size = (7 + v.n_aids + v.n_aids + v.n_aids + v.n_aids) % u32_mod;
    elements =
        uint 1
        ∷ uint v.src
        ∷ uint v.iid
        ∷ uint v.ballot_0
        ∷ uint v.value_ballot_0
        ∷ uint v.n_aids
        ∷ value
        ∷ (ids ++ (values ++ (ballots ++ value_ballots)));
  })

-- `msgpack_pack_paxos_accept`
unfoldable pub pack_accept : Accept → Option Packed
unfolding pack_value
pack_accept v = do
  value ← pack_value v.value
  some (record {
    size = 5;
    elements = uint 2 ∷ uint v.src ∷ uint v.iid ∷ uint v.ballot ∷ value ∷ [];
  })

-- `is_aids` and `is_values`
unfoldable pub is_there {ℓ} : {A : Type ℓ} → ℕ → Option A → Bool
is_there n none = false
is_there n (some p) = ltb 0 n

-- `if (b) { … }` around a loop
unfoldable pub pack_if : Bool → Option (List Object) → Option (List Object)
pack_if true os = os
pack_if false os = some []

abbrev pub of_bool : Bool → ℕ
of_bool b = if b then 1 else 0

-- `msgpack_pack_paxos_accepted`
unfoldable pub pack_accepted : Accepted → Option Packed
unfolding is_there pack_if pack_words pack_values pack_words_or_zero
pack_accepted v =
    let is_aids = is_there v.n_aids v.aids in
    let is_values = is_there v.n_aids v.values in
    (do
      ids ← pack_if is_aids (pack_words v.n_aids v.aids)
      values ← pack_if is_values (pack_values v.n_aids v.values)
      ballots ← pack_if is_aids (pack_words_or_zero v.n_aids v.ballots)
      value_ballots ← pack_if is_aids (pack_words_or_zero v.n_aids v.value_ballots)
      some (record {
        size =
            (6 + (if is_aids then v.n_aids else 0) * 3 + (if is_values then v.n_aids else 0))
            % u32_mod;
        elements =
            uint 3
            ∷ uint 0
            ∷ uint v.iid
            ∷ uint v.n_aids
            ∷ uint (of_bool is_aids)
            ∷ uint (of_bool is_values)
            ∷ (ids ++ (values ++ (ballots ++ value_ballots)));
      }))

-- `msgpack_pack_paxos_preempted`
unfoldable pub pack_preempted : Preempted → Packed
pack_preempted v = record {
  size = 4;
  elements = uint 4 ∷ uint v.aid ∷ uint v.iid ∷ uint v.ballot ∷ [];
}

-- `msgpack_pack_paxos_repeat`
unfoldable pub pack_repeat : Repeat → Packed
pack_repeat v = record { size = 3; elements = uint 5 ∷ uint v.from ∷ uint v.to ∷ [] }

-- `msgpack_pack_paxos_trim`
unfoldable pub pack_trim : ℕ → Packed
pack_trim iid = record { size = 2; elements = uint 6 ∷ uint iid ∷ [] }

-- `msgpack_pack_paxos_acceptor_state`
unfoldable pub pack_acceptor_state : AcceptorState → Packed
pack_acceptor_state v = record { size = 3; elements = uint 7 ∷ uint v.aid ∷ uint v.trim_iid ∷ [] }

-- `msgpack_pack_paxos_client_value`
unfoldable pub pack_client_value : Value → Option Packed
unfolding pack_value
pack_client_value v = do
  value ← pack_value v
  some (record { size = 2; elements = uint 8 ∷ value ∷ [] })

-- `msgpack_pack_paxos_message`
unfoldable pub pack_message : Message → Option Packed
unfolding pack_prepare pack_promise pack_accept pack_accepted pack_preempted pack_repeat pack_trim
    pack_acceptor_state pack_client_value
pack_message (Message.prepare v) = some (pack_prepare v)
pack_message (Message.promise v) = pack_promise v
pack_message (Message.accept v) = pack_accept v
pack_message (Message.accepted v) = pack_accepted v
pack_message (Message.preempted v) = some (pack_preempted v)
pack_message (Message.repeat v) = some (pack_repeat v)
pack_message (Message.trim iid) = some (pack_trim iid)
pack_message (Message.acceptor_state v) = some (pack_acceptor_state v)
pack_message (Message.client_value v) = pack_client_value v
