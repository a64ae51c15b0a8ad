-- ===== src/KHash.antt =====
-- What the code asks of paxos/include/khash.h, a hash table of the klib library with `uint32_t`
-- keys, which is a parameter of the models that use it.
pub mod Assoc
pub mod Held
pub mod Changes
use sciascid_libpaxos_d255f.Base.{
  ℕ, suc, ◌≡◌, ◌↔◌, ◌≢◌, Bool, Option, none, some, List, ◌==◌, if◌then◌else◌, Member,
}

-- `kh_get` is `get`; `kh_put` and the assignment to `kh_value` behind it are `put`, at a key that
-- may be there, and `kh_put` answers -1 where `no_memory` says so; an assignment through a
-- `kh_value` that is there is `put` too; `kh_del` at a key is `del`, and `kh_del` at `kh_end` does
-- nothing. The buckets from `kh_begin` to `kh_end` for which `kh_exist` holds are `keys`,
-- and `kh_size` is `size`.
pub record KHash (V : Type 0) : Type 1 where
  pub Table : Type 0
  pub init : Table
  pub get : Table → ℕ → Option V
  pub put : Table → ℕ → V → Table
  pub no_memory : Table → ℕ → Bool
  pub del : Table → ℕ → Table
  pub keys : Table → List ℕ
  pub size : Table → ℕ

-- The documented behaviour of those calls.
pub record IsTable {V : Type 0} (h : KHash V) : Type 0 where
  pub get-init : (k : ℕ) → h.get h.init k ≡ none
  pub get-put :
      (t : h.Table) (k j : ℕ) (v : V)
      → h.get (h.put t k v) j ≡ (if k == j then some v else h.get t j)
  pub get-del : (t : h.Table) (k j : ℕ) → h.get (h.del t k) j ≡ (if k == j then none else h.get t j)
  pub Member-keys : (t : h.Table) (k : ℕ) → Member k (h.keys t) ↔ (h.get t k ≢ none)
  pub size-init : h.size h.init ≡ 0
  pub size-put :
      (t : h.Table) (k : ℕ) (v : V) → h.get t k ≡ none → h.size (h.put t k v) ≡ suc (h.size t)
