-- ===== src/Storage.antt =====
-- paxos/include/storage.h and paxos/storage.c: the table of functions through which an acceptor
-- reaches its storage, and what an acceptor relies on. A function that answers 0 for success
-- answers `true` here.
pub mod Mem
use sciascid_libpaxos_d255f.Base.{
  ℕ, ◌≡◌, Bool, true, false, Option, none, some, leb, ◌==◌, if◌then◌else◌,
}
use sciascid_libpaxos_d255f.Types.{Accepted}
use sciascid_libpaxos_d255f.Accepted.{IsWhole, stored}

-- `struct storage`. `get` answers `some none` if there is no record and then leaves `out` alone;
-- the outer `none` of `get` and `put` is a fault.
pub record StorageApi : Type 1 where
  pub Handle : Type 0
  pub open_store : Handle → Bool × Handle
  pub tx_begin : Handle → Bool × Handle
  pub tx_commit : Handle → Bool × Handle
  pub tx_abort : Handle → Handle
  pub get : Handle → ℕ → Option (Option Accepted)
  pub put : Handle → Accepted → Option (Bool × Handle)
  pub trim : Handle → ℕ → Bool × Handle
  pub get_trim_instance : Handle → ℕ

-- A storage that works: `records` is what it holds of each instance.
pub record IsStorage (s : StorageApi) : Type 1 where
  pub IsValid : s.Handle → Type 0
  pub records : s.Handle → ℕ → Option Accepted
  pub begin_valid : (h : s.Handle) → IsValid h → IsValid (s.tx_begin h).1
  pub begin_keeps : (h : s.Handle) (k : ℕ) → records (s.tx_begin h).1 k ≡ records h k
  pub commit_valid : (h : s.Handle) → IsValid h → IsValid (s.tx_commit h).1
  pub commit_keeps : (h : s.Handle) (k : ℕ) → records (s.tx_commit h).1 k ≡ records h k
  pub get_lem : (h : s.Handle) (k : ℕ) → IsValid h → s.get h k ≡ some (records h k)
  pub get_whole :
      (h : s.Handle) (k : ℕ) (a : Accepted)
      → IsValid h
      → records h k ≡ some a
      → IsWhole a × (a.iid ≡ k)
  pub put_total :
      (h : s.Handle) (a : Accepted)
      → IsValid h
      → IsWhole a
      → (ok : Bool) × (h' : s.Handle) × (s.put h a ≡ some (ok, h'))
        × IsValid h'
        × ((k : ℕ)
            → records h' k
              ≡ (if ok then (if a.iid == k then some (stored a) else records h k) else records h k))
  pub abort_lem :
      (h h' : s.Handle) (a : Accepted) (k : ℕ)
      → IsValid h
      → s.put (s.tx_begin h).1 a ≡ some (false, h')
      → records (s.tx_abort h') k ≡ records h k
  pub abort_valid : (h : s.Handle) → IsValid h → IsValid (s.tx_abort h)
  pub trim_valid : (h : s.Handle) (i : ℕ) → IsValid h → IsValid (s.trim h i).1
  pub trim_lem :
      (h : s.Handle) (i k : ℕ)
      → IsValid h
      → records (s.trim h i).1 k ≡ (if leb k i then none else records h k)
