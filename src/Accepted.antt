-- ===== src/Accepted.antt =====
-- Records of `paxos_accepted` as heap data: which of them own arrays as long as `n_aids` says, and
-- what copying one reads.
use sciascid_libpaxos_d255f.Base.{
  ℕ, zero, suc, ◌<◌, ◌≡◌, refl, ◌⊎◌, Option, none, some, List, [], ◌∷◌, map, length, ◌==◌,
  if◌then◌else◌, ◌>>=◌, arith,
}
use sciascid_libpaxos_d255f.Types.{Value, Accepted}

-- A `paxos_value` of length 0 with no bytes: `{0, NULL}`.
abbrev pub null_value : Value
null_value = record { len = 0; val = none }

-- `memset(&acc, 0, sizeof(paxos_accepted))`
abbrev pub zeroed : Accepted
zeroed = record {
  src = 0;
  iid = 0;
  ballot_0 = 0;
  value_ballot_0 = 0;
  n_aids = 0;
  aids = none;
  value_0 = null_value;
  values = none;
  ballots = none;
  value_ballots = none;
}

-- The first `n` elements, read one by one: a shorter array is read outside its bounds.
unfoldable pub read_n {ℓ} : {A : Type ℓ} → ℕ → List A → Option (List A)
read_n zero xs = some []
read_n (suc n) [] = none
read_n (suc n) (x ∷ xs) = do ys ← read_n n xs; some (x ∷ ys)

-- `if (src != NULL) { dst = calloc(n, …); for (…) dst[i] = src[i]; }`
unfoldable pub copy_array {ℓ} : {A : Type ℓ} → ℕ → Option (List A) → Option (Option (List A))
unfolding read_n
copy_array n none = some none
copy_array n (some xs) = do ys ← read_n n xs; some (some ys)

-- The same with a copy of each element that may fault too.
unfoldable pub copy_each {ℓ} : {A : Type ℓ} → (A → Option A) → ℕ → List A → Option (List A)
copy_each copy zero vs = some []
copy_each copy (suc n) [] = none
copy_each copy (suc n) (v ∷ vs) = do w ← copy v; ws ← copy_each copy n vs; some (w ∷ ws)

-- The first `n` elements behind a pointer, as `memcpy` and the copying loops read them: none are
-- read from NULL.
unfoldable pub read_ptr : Option (List ℕ) → ℕ → Option (List ℕ)
unfolding read_n
read_ptr none zero = some []
read_ptr none (suc n) = none
read_ptr (some bs) n = read_n n bs

-- `p[0]`
unfoldable pub first {ℓ} : {A : Type ℓ} → Option (List A) → Option A
first none = none
first (some []) = none
first (some (x ∷ xs)) = some x

pub read_n-length {ℓ} : {A : Type ℓ} (n : ℕ) (xs : List A) → length xs ≡ n → read_n n xs ≡ some xs
unfolding read_n
read_n-length zero [] h = refl
read_n-length zero (x ∷ xs) h = absurd (omega arith)
read_n-length (suc n) [] h = absurd (omega arith)
read_n-length (suc n) (x ∷ xs) h = ground (arith, read_n-length n xs)

-- An array of exactly `n` elements.
abbrev pub Holds {ℓ} : {A : Type ℓ} → ℕ → Option (List A) → Type 0
Holds n none = ⊥
Holds n (some xs) = length xs ≡ n

-- A value whose bytes are as many as its length says.
abbrev pub WholeValue : Value → Type 0
WholeValue v = (v.len ≡ 0) ⊎ ((bs : List ℕ) × (v.val ≡ some bs) × (length bs ≡ v.len))

abbrev pub AllWhole : List Value → Type 0
AllWhole [] = Unit {0}
AllWhole (v ∷ vs) = WholeValue v × AllWhole vs

-- NULL, or `n` whole values.
abbrev pub WholeValues : ℕ → Option (List Value) → Type 0
WholeValues n none = Unit {0}
WholeValues n (some vs) = (length vs ≡ n) × AllWhole vs

-- Every array is there and as long as `n_aids`, but for `values`, which may be NULL.
pub record IsWhole (a : Accepted) : Type 0 where
  pub some_aid : 0 < a.n_aids
  pub whole_aids : Holds a.n_aids a.aids
  pub whole_values : WholeValues a.n_aids a.values
  pub whole_ballots : Holds a.n_aids a.ballots
  pub whole_value_ballots : Holds a.n_aids a.value_ballots

pub copy_array-Holds {ℓ} :
    {A : Type ℓ} (n : ℕ) (p : Option (List A)) → Holds n p → copy_array n p ≡ some p
unfolding copy_array
copy_array-Holds n none h = absurd h
copy_array-Holds n (some xs) h = ground (arith, read_n-length n xs h)

-- A value as a storage gives it back: of an empty value no pointer is kept.
unfoldable pub stored_value : Value → Value
stored_value v = if v.len == 0 then null_value else v

unfoldable pub stored_values : Option (List Value) → Option (List Value)
stored_values none = none
stored_values (some vs) = some (map stored_value vs)

-- A record as a storage gives it back.
unfoldable pub stored : Accepted → Accepted
stored a = record a { value_0 = null_value; values = stored_values a.values }

-- The first entry of `ballots`, by which the acceptor decides.
abbrev pub ballot_of : Accepted → ℕ
ballot_of r = elim r.ballots [ none ↦ 0 | some bs ↦ elim bs [ [] ↦ 0 | b ∷ _ ↦ b ] ]

pub first-ballots : (r : Accepted) → IsWhole r → first r.ballots ≡ some (ballot_of r)
unfolding first
first-ballots r w = first_of_whole r.ballots w.some_aid w.whole_ballots
  where
    first_of_whole :
        {n : ℕ} (p : Option (List ℕ))
        → 0 < n
        → Holds n p
        → first p ≡ some (elim p [ none ↦ 0 | some bs ↦ elim bs [ [] ↦ 0 | b ∷ _ ↦ b ] ])
    first_of_whole none h e = absurd e
    first_of_whole (some []) h e = absurd (omega arith)
    first_of_whole (some (x ∷ xs)) h e = refl
