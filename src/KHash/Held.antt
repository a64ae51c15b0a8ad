-- ===== src/KHash/Held.antt =====
-- How many of some keys a table of paxos/include/khash.h holds, which bounds the loops that delete.
use sciascid_libpaxos_d255f.Base.{
  ℕ, ◌+◌, ◌≤◌, ◌<◌, ◌≡◌, ◌≢◌, false, ◌==◌, ==_iff, Bool-cases, sym, ap, ◌∙◌, ◌⊎◌, inl, inr, Option,
  none, some, List, [], ◌∷◌, length, Member, arith,
}
use sciascid_libpaxos_d255f.KHash.{KHash, IsTable}

-- Whether a key is held, as a number.
unfoldable pub held {ℓ} : {V : Type ℓ} → Option V → ℕ
held none = 0
held (some v) = 1

unfoldable pub held_keys {ℓ} : {V : Type ℓ} → (ℕ → Option V) → List ℕ → ℕ
unfolding held
held_keys f [] = 0
held_keys f (k ∷ ks) = held (f k) + held_keys f ks

pub held_keys-le_length {ℓ} :
    {V : Type ℓ} (f : ℕ → Option V) (ks : List ℕ) → held_keys f ks ≤ length ks
unfolding held_keys
held_keys-le_length f [] = omega arith
held_keys-le_length f (k ∷ ks) = omega (arith, one (f k), held_keys-le_length f ks)
  where
    one : {V : Type ℓ} (o : Option V) → held o ≤ 1
    one none = omega arith
    one (some v) = omega arith

-- `g` holds what `f` holds, or nothing.
abbrev pub Fewer {ℓ} : {V : Type ℓ} → (ℕ → Option V) → (ℕ → Option V) → Type ℓ
Fewer g f = (k : ℕ) → (g k ≡ none) ⊎ (g k ≡ f k)

held-Fewer {ℓ} : {V : Type ℓ} (p o : Option V) → (p ≡ none) ⊎ (p ≡ o) → held p ≤ held o
unfolding held
held-Fewer p o (inl e) = rw e (omega arith)
held-Fewer p o (inr e) = rw e (omega arith)

held_keys-Fewer {ℓ} :
    {V : Type ℓ} (f g : ℕ → Option V) (ks : List ℕ) → Fewer g f → held_keys g ks ≤ held_keys f ks
unfolding held_keys
held_keys-Fewer f g [] h = omega arith
held_keys-Fewer f g (k ∷ ks) h =
    omega (arith, held-Fewer (g k) (f k) (h k), held_keys-Fewer f g ks h)

-- Deleting a key that is held leaves fewer.
pub held_keys-less {ℓ} :
    {V : Type ℓ} (f g : ℕ → Option V) (k : ℕ) (v : V) (ks : List ℕ)
    → Fewer g f
    → f k ≡ some v
    → g k ≡ none
    → Member k ks
    → held_keys g ks < held_keys f ks
unfolding held_keys
held_keys-less f g k v [] h e n m = absurd m
held_keys-less f g k v (x ∷ ks) h e n (inl same) =
    omega (
      arith,
      ap held (ap f (sym same) ∙ e),
      ap held (ap g (sym same) ∙ n),
      held_keys-Fewer f g ks h,
    )
held_keys-less f g k v (x ∷ ks) h e n (inr m) =
    omega (arith, held-Fewer (g x) (f x) (h x), held_keys-less f g k v ks h e n m)

pub Fewer-trans {ℓ} : {V : Type ℓ} (f g h : ℕ → Option V) → Fewer g f → Fewer h g → Fewer h f
Fewer-trans f g h p q k = elim (q k) [
  | inl e ↦ inl e
  | inr e ↦ elim (p k) [ inl e' ↦ inl (e ∙ e') | inr e' ↦ inr (e ∙ e') ]
]

-- Deleting a key leaves the others.
pub Fewer-but {ℓ} :
    {V : Type ℓ} (f g : ℕ → Option V) (k : ℕ)
    → g k ≡ none
    → ((x : ℕ) → x ≢ k → g x ≡ f x)
    → Fewer g f
Fewer-but f g k gone same x = elim (Bool-cases (x == k)) [
  | inl e ↦ inl (ap g ((==_iff x k).0 e) ∙ gone)
  | inr e ↦ inr (same x (differ e))
]
  where
    differ : {x k : ℕ} → (x == k) ≡ false → x ≢ k
    differ ne h = ground arith

-- What is held is held where there was more.
pub Fewer-some {ℓ} :
    {V : Type ℓ} (f g : ℕ → Option V) (k : ℕ) (v : V) → Fewer g f → g k ≡ some v → f k ≡ some v
Fewer-some f g k v less e = elim (less k) [
  | inl n ↦ absurd (clash (sym e ∙ n))
  | inr same ↦ sym same ∙ e
]
  where
    clash : some v ≡ none → ⊥
    clash h = cc

-- Every key that is held is among the given ones.
abbrev pub Covers {ℓ} : {V : Type ℓ} → List ℕ → (ℕ → Option V) → Type ℓ
Covers {V = V} ks f = (k : ℕ) (v : V) → f k ≡ some v → Member k ks

pub Covers-Fewer {ℓ} :
    {V : Type ℓ} (ks : List ℕ) (f g : ℕ → Option V) → Fewer g f → Covers ks f → Covers ks g
Covers-Fewer ks f g less c k v e = c k v (Fewer-some f g k v less e)

pub Covers-keys :
    {V : Type 0} (table : KHash V) (ok : IsTable table) (t : table.Table)
    → Covers (table.keys t) (table.get t)
Covers-keys table ok t k v e = (ok.Member-keys t k).1 (λ h. clash (sym e ∙ h))
  where
    clash : some v ≡ none → ⊥
    clash h = cc
