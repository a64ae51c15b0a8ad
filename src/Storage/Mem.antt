-- ===== src/Storage/Mem.antt =====
-- paxos/storage_mem.c: the records in a hash table. Allocation is taken to succeed, but for that of
-- `kh_put`.
pub mod Copy
pub mod Laws
use sciascid_libpaxos_d255f.Base.{
  ℕ, Bool, true, false, Option, none, some, List, [], ◌∷◌, leb, ltb, ◌==◌, if◌then◌else◌, ◌>>=◌,
}
use sciascid_libpaxos_d255f.Types.{Value, Accepted}
use sciascid_libpaxos_d255f.Accepted.{null_value, copy_array, copy_each, read_ptr}
use sciascid_libpaxos_d255f.KHash.{KHash}
use sciascid_libpaxos_d255f.Storage.{StorageApi}

-- The loop of `paxos_accepted_copy` over `values`, at one value.
unfoldable pub copy_value : Value → Option Value
unfolding read_ptr
copy_value v =
    if ltb 0 v.len
    then (do bs ← read_ptr v.val v.len; some (record { len = v.len; val = some bs }))
    else some (record { len = v.len; val = none })

unfoldable pub copy_values : ℕ → Option (List Value) → Option (Option (List Value))
unfolding copy_each copy_value
copy_values n none = some none
copy_values n (some vs) = do ws ← copy_each copy_value n vs; some (some ws)

-- `paxos_accepted_copy`
unfoldable pub accepted_copy : Accepted → Option Accepted
unfolding copy_array copy_values
accepted_copy src =
    if ltb 0 src.n_aids
    then (do
      aids' ← copy_array src.n_aids src.aids
      values' ← copy_values src.n_aids src.values
      ballots' ← copy_array src.n_aids src.ballots
      value_ballots' ← copy_array src.n_aids src.value_ballots
      some (record src {
        aids = aids';
        values = values';
        ballots = ballots';
        value_ballots = value_ballots';
        value_0 = null_value;
      }))
    else some
        (record src { aids = none; ballots = none; value_ballots = none; value_0 = null_value })

module _ (table : KHash Accepted) where
  open table use {Table}

  -- `struct mem_storage`
  pub record MemStorage : Type 0 where
    pub trim_iid : ℕ
    pub records : Table

  -- `mem_storage_new`
  unfoldable pub new : MemStorage
  new = record { trim_iid = 0; records = table.init }

  -- `mem_storage_get`
  unfoldable pub get : MemStorage → ℕ → Option (Option Accepted)
  unfolding accepted_copy
  get s iid = elim (table.get s.records iid) [
    | none ↦ some none
    | some acc ↦ (do out ← accepted_copy acc; some (some out))
  ]

  -- `mem_storage_put`
  unfoldable pub put : MemStorage → Accepted → Option (Bool × MemStorage)
  unfolding accepted_copy
  put s acc = do
    copy ← accepted_copy acc
    if table.no_memory s.records acc.iid
        then some (false, s)
        else some (true, record s { records = table.put s.records acc.iid copy })

  -- The loop of `mem_storage_trim` at one bucket.
  unfoldable pub trim_bucket : ℕ → Table → ℕ → Table
  trim_bucket iid t k = elim (table.get t k) [
    | none ↦ t
    | some acc ↦ if leb acc.iid iid then table.del t k else t
  ]

  -- The same over the buckets that are left.
  unfoldable pub trim_from : ℕ → List ℕ → Table → Table
  unfolding trim_bucket
  trim_from iid [] t = t
  trim_from iid (k ∷ ks) t = trim_from iid ks (trim_bucket iid t k)

  -- `mem_storage_trim`
  unfoldable pub trim : MemStorage → ℕ → Bool × MemStorage
  trim s iid =
      (true, record { trim_iid = iid; records = trim_from iid (table.keys s.records) s.records })

  -- `storage_init_mem`; opening, `mem_storage_tx_begin`, `_commit` and `_abort` do nothing.
  abbrev pub api : StorageApi
  api = record {
    Handle = MemStorage;
    open_store = λ s. (true, s);
    tx_begin = λ s. (true, s);
    tx_commit = λ s. (true, s);
    tx_abort = λ s. s;
    get = get;
    put = put;
    trim = trim;
    get_trim_instance = λ s. s.trim_iid;
  }
