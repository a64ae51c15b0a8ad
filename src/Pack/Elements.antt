-- ===== src/Pack/Elements.antt =====
-- What the loops of evpaxos/paxos_types_pack.c write is what they read.
use sciascid_libpaxos_d255f.Base.{
  ℕ, zero, suc, ◌<◌, ◌^◌, ◌≡◌, refl, ap, ◌∙◌, inl, inr, Option, none, some, List, [], ◌∷◌, ◌++◌,
  map, length, Option-cases, arith,
}
use sciascid_libpaxos_d255f.Types.{Value}
use sciascid_libpaxos_d255f.Accepted.{
  read_n, read_ptr, read_n-length, WholeValue, AllWhole, Holds, stored_value,
}
use sciascid_libpaxos_d255f.Msgpack.{Object, uint, bin}
use sciascid_libpaxos_d255f.Pack.{pack_value, pack_words, pack_each}
use sciascid_libpaxos_d255f.Pack.Unpack.{uint32_at, value_at, many}

-- Numbers that fit into a `uint32_t`.
abbrev pub AllWords : List ℕ → Type 0
AllWords [] = Unit {0}
AllWords (w ∷ ws) = (w < 2 ^ 32) × AllWords ws

abbrev pub Words : Option (List ℕ) → Type 0
Words none = Unit {0}
Words (some ws) = AllWords ws

-- An element that is written for `v`, and read as it is stored.
pub record Carries (v : Value) : Type 0 where
  pub element : Object
  pub written : pack_value v ≡ some element
  pub read : (rest : List Object) → value_at (element ∷ rest) ≡ some (stored_value v, rest)

Carries-bytes : (v : Value) (bs : List ℕ) → v.val ≡ some bs → length bs ≡ v.len → Carries v
unfolding pack_value value_at stored_value
Carries-bytes v [] e l = record {
  element = bin [];
  written = rw (e, read_n-length v.len [] l) refl;
  read = λ rest. ground arith;
}
Carries-bytes v (b ∷ bs) e l = record {
  element = bin (b ∷ bs);
  written = rw (e, read_n-length v.len (b ∷ bs) l) refl;
  read = λ rest. ground arith;
}

-- A whole value can be written.
pub Carries-whole : (v : Value) → WholeValue v → Carries v
unfolding pack_value value_at stored_value
Carries-whole v (inr (bs, e, l)) = Carries-bytes v bs e l
Carries-whole v (inl z) = elim (Option-cases v.val) [
  | inl e ↦ Carries-null v e z
  | inr (bs, e) ↦ Carries-empty v bs e z
]
  where
    Carries-null : (v : Value) → v.val ≡ none → v.len ≡ 0 → Carries v
    Carries-null v e z = record { element = bin []; written = rw e refl; read = λ rest. rw z refl }

    Carries-empty : (v : Value) (bs : List ℕ) → v.val ≡ some bs → v.len ≡ 0 → Carries v
    Carries-empty v bs e z = record {
      element = bin [];
      written = rw (e, z, read_n) refl;
      read = λ rest. rw z refl;
    }

-- A loop over `n` numbers writes them, and a loop over `n` elements reads them back.
pub words_lem :
    (n : ℕ) (p : Option (List ℕ))
    → Holds n p
    → Words p
    → (os : List Object) × (ws : List ℕ) × (p ≡ some ws)
      × (pack_words n p ≡ some os)
      × (length os ≡ n)
      × ((rest : List Object) → many n uint32_at (os ++ rest) ≡ some (ws, rest))
unfolding pack_words read_ptr many uint32_at
words_lem n none h w = absurd h
words_lem n (some ws) h w = (
  map uint ws,
  ws,
  refl,
  rw (read_n-length n ws h) refl,
  length-uint ws ∙ h,
  λ rest. reads n ws rest h w,
)
  where
    length-uint : (ws : List ℕ) → length (map uint ws) ≡ length ws
    length-uint [] = refl
    length-uint (w ∷ ws) = ap suc (length-uint ws)

    reads :
        (n : ℕ) (ws : List ℕ) (rest : List Object)
        → length ws ≡ n
        → AllWords ws
        → many n uint32_at (map uint ws ++ rest) ≡ some (ws, rest)
    reads zero [] rest h w = refl
    reads zero (x ∷ ws) rest h w = absurd (omega arith)
    reads (suc n) [] rest h w = absurd (omega arith)
    reads (suc n) (x ∷ ws) rest h (wx, w) =
        rw (reads n ws rest (omega arith) w) (ap (λ y. some (y ∷ ws, rest)) (omega (arith, wx)))

pub values_lem :
    (n : ℕ) (vs : List Value)
    → length vs ≡ n
    → AllWhole vs
    → (os : List Object) × (pack_each n vs ≡ some os)
      × (length os ≡ n)
      × ((rest : List Object) → many n value_at (os ++ rest) ≡ some (map stored_value vs, rest))
unfolding pack_each many
values_lem zero [] h w = ([], refl, refl, λ rest. refl)
values_lem zero (v ∷ vs) h w = absurd (omega arith)
values_lem (suc n) [] h w = absurd (omega arith)
values_lem (suc n) (v ∷ vs) h (wv, w) =
    let c = Carries-whole v wv in
    let (os, run, len, reads) = values_lem n vs (omega arith) w in
    (
      c.element ∷ os,
      rw (c.written, run) refl,
      omega (arith, len),
      λ rest. rw (c.read (os ++ rest), reads rest) refl,
    )
