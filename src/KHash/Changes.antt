-- ===== src/KHash/Changes.antt =====
-- What a change of a table leaves alone, from the laws of paxos/include/khash.h.
use sciascid_libpaxos_d255f.Base.{
  ℕ, ◌≡◌, ◌≢◌, refl, sym, ap, ◌∙◌, inl, inr, none, some, ◌==◌, Bool-cases, ==_iff, ==_refl,
}
use sciascid_libpaxos_d255f.KHash.{KHash, IsTable}

module _ {V : Type 0} (table : KHash V) (ok : IsTable table) where
  pub del-other : (t : table.Table) (k x : ℕ) → x ≢ k → table.get (table.del t k) x ≡ table.get t x
  del-other t k x ne = elim (Bool-cases (k == x)) [
    | inl same ↦ absurd (ne (sym ((==_iff k x).0 same)))
    | inr other ↦ ok.get-del t k x ∙ rw other refl
  ]

  pub del_self : (t : table.Table) (k : ℕ) → table.get (table.del t k) k ≡ none
  del_self t k = ok.get-del t k k ∙ rw (==_refl k) refl

  pub put_self : (t : table.Table) (k : ℕ) (v : V) → table.get (table.put t k v) k ≡ some v
  put_self t k v = ok.get-put t k k v ∙ rw (==_refl k) refl

  pub put-other :
      (t : table.Table) (k x : ℕ) (v : V) → x ≢ k → table.get (table.put t k v) x ≡ table.get t x
  put-other t k x v ne = elim (Bool-cases (k == x)) [
    | inl same ↦ absurd (ne (sym ((==_iff k x).0 same)))
    | inr other ↦ ok.get-put t k x v ∙ rw other refl
  ]

  -- Putting back what is there.
  pub put-same :
      (t : table.Table) (k x : ℕ) (v : V)
      → table.get t k ≡ some v
      → table.get (table.put t k v) x ≡ table.get t x
  put-same t k x v e = elim (Bool-cases (k == x)) [
    | inl same ↦ ok.get-put t k x v ∙ rw same (sym e ∙ ap (table.get t) ((==_iff k x).0 same))
    | inr other ↦ ok.get-put t k x v ∙ rw other refl
  ]
