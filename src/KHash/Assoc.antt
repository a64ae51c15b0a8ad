-- ===== src/KHash/Assoc.antt =====
-- A hash table as the code asks for it: a list of keys and values, the newest first, with room for
-- every key.
use sciascid_libpaxos_d255f.Base.{
  ℕ, suc, ◌≡◌, ◌≢◌, refl, ap, inl, inr, false, Option, none, some, List, [], ◌∷◌, ◌==◌,
  if◌then◌else◌, Member, Bool-cases, arith,
}
use sciascid_libpaxos_d255f.KHash.{KHash, IsTable}

module _ {V : Type 0} where
  lookup : List (ℕ × V) → ℕ → Option V
  lookup [] k = none
  lookup ((j, v) ∷ t) k = if j == k then some v else lookup t k

  remove : List (ℕ × V) → ℕ → List (ℕ × V)
  remove [] k = []
  remove ((j, v) ∷ t) k = if j == k then remove t k else (j, v) ∷ remove t k

  keys : List (ℕ × V) → List ℕ
  keys [] = []
  keys ((j, v) ∷ t) = j ∷ keys t

  count : List (ℕ × V) → ℕ
  unfolding lookup
  count [] = 0
  count ((j, v) ∷ t) = elim (lookup t j) [ none ↦ suc (count t) | some w ↦ count t ]

  count-fresh :
      (t : List (ℕ × V)) (k : ℕ) (v : V) → lookup t k ≡ none → count ((k, v) ∷ t) ≡ suc (count t)
  unfolding count
  count-fresh t k v e = ap (λ (o : Option V). elim o [ none ↦ suc (count t) | some w ↦ count t ]) e

  lookup-remove :
      (t : List (ℕ × V)) (k j : ℕ) → lookup (remove t k) j ≡ (if k == j then none else lookup t j)
  unfolding lookup remove
  lookup-remove [] k j = ground arith
  lookup-remove ((i, v) ∷ t) k j = ground (arith, lookup-remove t k j)

  Member-lookup : (t : List (ℕ × V)) (k : ℕ) → Member k (keys t) → lookup t k ≢ none
  unfolding lookup keys
  Member-lookup [] k m = absurd m
  Member-lookup ((j, v) ∷ t) k (inl e) = ground arith
  Member-lookup ((j, v) ∷ t) k (inr m) = ground (arith, Member-lookup t k m)

  lookup-Member : (t : List (ℕ × V)) (k : ℕ) → lookup t k ≢ none → Member k (keys t)
  unfolding lookup keys
  lookup-Member [] k n = absurd (n refl)
  lookup-Member ((j, v) ∷ t) k n = elim (Bool-cases (j == k)) [
    | inl e ↦ inl (ground arith)
    | inr e ↦ inr (lookup-Member t k (λ h. n (rw (e, lookup) h)))
  ]

unfoldable pub assoc : (V : Type 0) → KHash V
unfolding lookup remove keys count
assoc V = record {
  Table = List (ℕ × V);
  init = [];
  get = lookup;
  put = λ t k v. (k, v) ∷ t;
  no_memory = λ t k. false;
  del = remove;
  keys = keys;
  size = count;
}

pub assoc-IsTable : (V : Type 0) → IsTable (assoc V)
unfolding assoc
assoc-IsTable V = record {
  get-init = λ k. refl;
  get-put = λ t k j v. refl;
  get-del = lookup-remove;
  Member-keys = λ t k. (Member-lookup t k, lookup-Member t k);
  size-init = refl;
  size-put = count-fresh;
}
