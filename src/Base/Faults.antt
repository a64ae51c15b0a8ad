-- ===== src/Base/Faults.antt =====
-- Computations that may fault: `none` is an access outside an array, a copy from a null pointer,
-- or an `assert` that fails.
use mathlib.Core.Path.{◌≡◌, refl, ap}
use mathlib.Core.Bool.{Bool, true, false}
use mathlib.Core.Option.{Option, none, some}
use native.Mathlib.Omega.{arith}
use sciascid_libpaxos_d255f.Base.Bools.{if◌then◌else◌}

infixl 5 ◌>>=◌ ◌>>◌
abbrev pub ◌>>=◌ {ℓ κ} : {A : Type ℓ} {B : Type κ} → Option A → (A → Option B) → Option B
none >>= f = none
some a >>= f = f a

abbrev pub ◌>>◌ {ℓ} : {B : Type ℓ} → Option (Unit {0}) → Option B → Option B
m >> k = m >>= λ _. k

-- `assert(b)`, and the bounds check of an array access.
abbrev pub require : Bool → Option (Unit {0})
require true = some tt
require false = none

-- Inversion of a sequence that does not fault.
pub >>=-eq-some {ℓ κ} :
    {A : Type ℓ} {B : Type κ} (m : Option A) (f : A → Option B) {b : B}
    → (m >>= f) ≡ some b
    → (a : A) × (m ≡ some a) × (f a ≡ some b)
>>=-eq-some none f h = ground arith
>>=-eq-some (some a) f h = (a, refl, h)

pub some_inj {ℓ} : {A : Type ℓ} {a b : A} → some a ≡ some b → a ≡ b
some_inj {A} {a} e = ap (λ (o : Option A). elim o [ none ↦ a | some x ↦ x ]) e

-- What holds of a value that a lookup behind a write or a removal gives.
pub if_some {ℓ κ} :
    {A : Type ℓ} (P : A → Type κ) (c : Bool) (p o : Option A) (b : A)
    → (if c then p else o) ≡ some b
    → (c ≡ true → p ≡ some b → P b)
    → (o ≡ some b → P b)
    → P b
if_some P true p o b e written kept = written refl e
if_some P false p o b e written kept = kept e
