-- ===== src/Msgpack.antt =====
-- What the code asks of the msgpack library, which is a parameter of the models that use it.
use sciascid_libpaxos_d255f.Base.{ℕ, ◌≡◌, List, ◌∷◌, ◌++◌, length}

-- A `msgpack_object` in an array: a number, which the code reads as `via.u64`, or bytes, which it
-- reads as `via.bin`.
pub data Object : Type 0 where
  uint : ℕ → Object
  bin : List ℕ → Object

-- What a packer is told: `msgpack_pack_array` of a size, then the elements, by
-- `msgpack_pack_int32`, `msgpack_pack_uint32`, or `msgpack_pack_bin` and `msgpack_pack_bin_body`.
pub record Packed : Type 0 where
  pub size : ℕ
  pub elements : List Object

-- The answers of `msgpack_unpack_next`: an array and the bytes behind it, not enough bytes, or an
-- error.
pub data Unpacked : Type 0 where
  success : List Object → List ℕ → Unpacked
  more : Unpacked
  error : Unpacked

-- `encode` is what a packer writes, and `next` is `msgpack_unpack_next`.
pub record Msgpack : Type 0 where
  pub encode : Packed → List ℕ
  pub next : List ℕ → Unpacked

-- The documented behaviour: an array with all its elements is read back, and what follows it is left.
pub record IsMsgpack (m : Msgpack) : Type 0 where
  pub next-encode :
      (p : Packed) (rest : List ℕ)
      → length p.elements ≡ p.size
      → m.next (m.encode p ++ rest) ≡ success p.elements rest
  pub encode_some : (p : Packed) → (b : ℕ) × (bs : List ℕ) × (m.encode p ≡ b ∷ bs)
