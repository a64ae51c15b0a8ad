-- ===== src/Tests/Storage.antt =====
-- paxos/storage_mem.c over a list as its hash table.
use sciascid_libpaxos_d255f.Base.{
  ℕ, ◌≡◌, refl, Bool, Option, none, some, [], ◌∷◌, ◌==◌, if◌then◌else◌, if_some, some_inj, subst,
  arith,
}
use sciascid_libpaxos_d255f.Types.{Accepted}
use sciascid_libpaxos_d255f.Accepted.{stored, stored_value, stored_values, IsWhole}
use sciascid_libpaxos_d255f.KHash.{KHash}
use sciascid_libpaxos_d255f.KHash.Assoc.{assoc, assoc-IsTable}
use sciascid_libpaxos_d255f.Storage.Mem
use sciascid_libpaxos_d255f.Storage.Mem.{MemStorage, accepted_copy}
use sciascid_libpaxos_d255f.Storage.Mem.Copy.{accepted_copy-stored}
use sciascid_libpaxos_d255f.Storage.Mem.Laws.{IsFiled, get-put, get-trim_from}
use sciascid_libpaxos_d255f.Tests.Samples.{accepted_by, accepted_by-IsWhole}

abbrev table : KHash Accepted
table = assoc Accepted

-- A storage with one record.
holds_bar : MemStorage table
unfolding assoc
holds_bar = record { trim_iid = 0; records = (1, accepted_by 1) ∷ [] }

holds_bar-IsFiled : IsFiled table (assoc-IsTable Accepted) holds_bar.records
unfolding holds_bar assoc stored stored_values stored_value
holds_bar-IsFiled k r e =
    if_some (λ q. (q.iid ≡ k) × IsWhole q × (stored q ≡ q)) (1 == k) (some (accepted_by 1)) none r e
      (λ same is.
        subst (λ q. (q.iid ≡ k) × IsWhole q × (stored q ≡ q)) (some_inj is)
          (ground arith, accepted_by-IsWhole 1, refl))
      (λ n. absurd (cc))

get-put_example :
    (done : Bool) × (s' : MemStorage table) × (Mem.put table holds_bar (accepted_by 2)
      ≡ some (done, s'))
    × IsFiled table (assoc-IsTable Accepted) s'.records
    × ((k : ℕ) (r : Option Accepted)
        → Mem.get table holds_bar k ≡ some r
        → Mem.get table s' k
          ≡ some (if done then (if 1 == k then some (stored (accepted_by 2)) else r) else r))
get-put_example =
    get-put table (assoc-IsTable Accepted) holds_bar (accepted_by 2) holds_bar-IsFiled
      (accepted_by-IsWhole 2)

finds_bar : Mem.get table holds_bar 1 ≡ some (some (accepted_by 1))
unfolding Mem.get holds_bar assoc
finds_bar = refl

get-trim_from_example :
    IsFiled table (assoc-IsTable Accepted) (Mem.trim table holds_bar 1).1.records
    × (Mem.get table (Mem.trim table holds_bar 1).1 1 ≡ some none)
get-trim_from_example =
    get-trim_from table (assoc-IsTable Accepted) holds_bar 1 1 (some (accepted_by 1))
      holds_bar-IsFiled finds_bar

accepted_copy-stored_example : accepted_copy (accepted_by 1) ≡ some (stored (accepted_by 1))
accepted_copy-stored_example = accepted_copy-stored (accepted_by 1) (accepted_by-IsWhole 1)
