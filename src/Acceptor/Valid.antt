-- ===== src/Acceptor/Valid.antt =====
-- The state of an acceptor over a working storage: what it has recorded of each instance.
use sciascid_libpaxos_d255f.Base.{ℕ, ◌≡◌, refl, inl, inr, Option, none, some, List, [], arith}
use sciascid_libpaxos_d255f.Types.{Value, Accepted}
use sciascid_libpaxos_d255f.Accepted.{
  read_n, read_ptr, first, read_n-length, WholeValue, stored_value, stored,
}
pub use sciascid_libpaxos_d255f.Accepted.{ballot_of, first-ballots}
use sciascid_libpaxos_d255f.Storage.{StorageApi, IsStorage}
use sciascid_libpaxos_d255f.Acceptor.{Acceptor}
use sciascid_libpaxos_d255f.Acceptor.Convert.{clone_value}

-- The ballot of the record of an instance, 0 if there is none.
abbrev pub ballot_in : Option Accepted → ℕ
ballot_in none = 0
ballot_in (some r) = ballot_of r

read_ptr-zero : (p : Option (List ℕ)) → read_ptr p 0 ≡ some []
unfolding read_ptr read_n
read_ptr-zero none = refl
read_ptr-zero (some bs) = refl

-- A copy of a whole value holds the same bytes.
pub clone_value-whole :
    (v : Value)
    → WholeValue v
    → (w : Value) × (clone_value v ≡ some w) × WholeValue w × (stored_value w ≡ stored_value v)
unfolding clone_value read_ptr read_n stored_value
clone_value-whole v (inl e) =
    (record { len = 0; val = some [] }, ground (arith, read_ptr-zero v.val), inl refl, ground arith)
clone_value-whole v (inr (bs, e, l)) =
    (v, ground (arith, read_n-length v.len bs l), inr (bs, e, l), refl)

pub ballot_of-stored : (r : Accepted) → ballot_of (stored r) ≡ ballot_of r
unfolding stored
ballot_of-stored r = refl

module _ (s : StorageApi) (st : IsStorage s) where
  -- The storage is valid, and every record begins with the acceptor's own id.
  pub record IsValid (a : Acceptor s) : Type 0 where
    pub store_valid : st.IsValid a.store
    pub own : (k : ℕ) (r : Accepted) → st.records a.store k ≡ some r → first r.aids ≡ some a.id

  -- What the acceptor has recorded of an instance.
  abbrev pub record_at : Acceptor s → ℕ → Option Accepted
  record_at a k = st.records a.store k
