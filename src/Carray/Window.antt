-- ===== src/Carray/Window.antt =====
-- The invariant of `struct carray`, and the sequence that it holds.
use native.Mathlib.Nat.{mod-eq_of_lt, mod-eq-sub-mod}
use native.Mathlib.Decide.{dec_lt}
use sciascid_libpaxos_d255f.Base.{
  ℕ, zero, suc, ◌+◌, ◌-◌, ◌%◌, ◌≤◌, ◌<◌, ◌≡◌, refl, ap, ap₂, ◌≢◌, ◌⊎◌, inl, inr, List, [], ◌∷◌,
  ◌++◌, length, get_or, set, get_or-set_ne, arith,
}
use sciascid_libpaxos_d255f.Carray.{Carray}

-- The array has `size` cells, `head` is one of them, at most `size` are in use, and `tail` is the
-- cell behind those.
pub record IsValid {ℓ} {A : Type ℓ} (a : Carray A) : Type ℓ where
  pub cells : length a.array ≡ a.size
  pub some_room : 0 < a.size
  pub head_in : a.head < a.size
  pub count_in : a.count ≤ a.size
  pub tail_is : a.tail ≡ (a.head + a.count) % a.size

-- An index that goes round at most once.
mod_cases :
    (h j size : ℕ)
    → h < size
    → j < size
    → ((h + j) % size ≡ h + j) × (h + j < size) ⊎ ((h + j) % size ≡ h + j - size) × (size ≤ h + j)
mod_cases h j size hh hj = elim (dec_lt (h + j) size) [
  | yes p ↦ inl (mod-eq_of_lt p, p)
  | no p ↦ inr (
    omega (
      arith,
      mod-eq-sub-mod {n = h + j} {m = size} (omega arith),
      mod-eq_of_lt {n = h + j - size} {m = size} (omega arith),
    ),
    omega arith,
  )
]

pub mod_in : (h j size : ℕ) → h < size → j < size → (h + j) % size < size
mod_in h j size hh hj = omega (arith, mod_cases h j size hh hj)

-- Different offsets below `size` are different cells.
mod_apart : (h j k size : ℕ) → h < size → j < k → k < size → (h + k) % size ≢ (h + j) % size
mod_apart h j k size hh jk kk =
    omega (arith, mod_cases h j size hh (omega arith), mod_cases h k size hh kk)

-- An offset from the next cell.
mod_next :
    (h j size : ℕ) → h < size → suc j < size → ((h + 1) % size + j) % size ≡ (h + suc j) % size
mod_next h j size hh jj = elim (mod_cases h 1 size hh (omega arith)) [
  | inl (e, _) ↦ rw e (ap (λ k. k % size) (omega arith))
  | inr (e, r) ↦ omega (
    arith,
    mod_cases h (suc j) size hh jj,
    ap (λ k. (k + j) % size) e,
    mod-eq_of_lt {n = h + 1 - size + j} {m = size} (omega arith),
  )
]

module _ {ℓ} {A : Type ℓ} (junk : A) (size : ℕ) where
  -- The `n` elements at the offsets `i`, `i + 1`, … from the cell `h`, going round at `size`.
  abbrev pub window : List A → ℕ → ℕ → ℕ → List A
  window xs h i zero = []
  window xs h i (suc n) = get_or xs ((h + i) % size) junk ∷ window xs h (i + 1) n

  pub length-window : (xs : List A) (h i n : ℕ) → length (window xs h i n) ≡ n
  length-window xs h i zero = refl
  length-window xs h i (suc n) = ap suc (length-window xs h (i + 1) n)

  -- A write behind the window leaves it as it is.
  pub window-set :
      (xs : List A) (x : A) (h m i n : ℕ)
      → h < size
      → i + n ≤ m
      → m < size
      → window (set xs ((h + m) % size) x) h i n ≡ window xs h i n
  window-set xs x h m i zero hh le mm = refl
  window-set xs x h m i (suc n) hh le mm =
      ap₂ ◌∷◌ (get_or-set_ne xs x junk (mod_apart h i m size hh (omega arith) mm))
        (window-set xs x h m (i + 1) n hh (omega arith) mm)

  -- A window that is longer by one has one more element at its end.
  pub window-suc :
      (xs : List A) (h i n : ℕ)
      → window xs h i (suc n) ≡ window xs h i n ++ (get_or xs ((h + (i + n)) % size) junk ∷ [])
  window-suc xs h i zero = ap (λ k. get_or xs ((h + k) % size) junk ∷ []) (omega arith)
  window-suc xs h i (suc n) = ap (◌∷◌ (get_or xs ((h + i) % size) junk)) (
      rw (window-suc xs h (i + 1) n)
        (ap (λ k. window xs h (i + 1) n ++ (get_or xs ((h + k) % size) junk ∷ [])) (omega arith)))

  -- A window seen from the next cell.
  pub window-next :
      (xs : List A) (h i n : ℕ)
      → h < size
      → i + n < size
      → window xs ((h + 1) % size) i n ≡ window xs h (i + 1) n
  window-next xs h i zero hh le = refl
  window-next xs h i (suc n) hh le =
      ap₂ ◌∷◌
        (ap (λ k. get_or xs k junk)
          (rw (mod_next h i size hh (omega arith)) (ap (λ k. (h + k) % size) (omega arith))))
        (window-next xs h (i + 1) n hh (omega arith))

-- What the array holds, oldest first.
abbrev pub contents {ℓ} : {A : Type ℓ} → A → Carray A → List A
contents junk a = window junk a.size a.array a.head 0 a.count
