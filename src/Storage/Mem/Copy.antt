-- ===== src/Storage/Mem/Copy.antt =====
-- `paxos_accepted_copy` of paxos/storage_mem.c against `stored`.
use sciascid_libpaxos_d255f.Base.{
  ℕ, zero, suc, ◌<◌, ◌≡◌, refl, inl, inr, Option, none, some, List, [], ◌∷◌, map, length, ◌==◌,
  Bool-cases, arith,
}
use sciascid_libpaxos_d255f.Types.{Value, Accepted}
use sciascid_libpaxos_d255f.Accepted.{
  copy_each, read_ptr, read_n-length, WholeValue, AllWhole, WholeValues, IsWhole, copy_array-Holds,
  stored_value, stored_values, stored,
}
use sciascid_libpaxos_d255f.Storage.Mem.{copy_value, copy_values, accepted_copy}

copy_value-stored : (v : Value) → WholeValue v → copy_value v ≡ some (stored_value v)
unfolding copy_value stored_value read_ptr
copy_value-stored v (inl e) = ground arith
copy_value-stored v (inr (bs, e, l)) = ground (arith, read_n-length v.len bs l)

stored_value-Whole : (v : Value) → WholeValue v → WholeValue (stored_value v)
unfolding stored_value
stored_value-Whole v w = elim (Bool-cases (v.len == 0)) [ inl e ↦ rw e (inl refl) | inr e ↦ rw e w ]

stored_value-stored_value : (v : Value) → stored_value (stored_value v) ≡ stored_value v
unfolding stored_value
stored_value-stored_value v = ground arith

copy_each-stored :
    (n : ℕ) (vs : List Value)
    → length vs ≡ n
    → AllWhole vs
    → copy_each copy_value n vs ≡ some (map stored_value vs)
unfolding copy_each
copy_each-stored zero [] e w = refl
copy_each-stored zero (v ∷ vs) e w = absurd (omega arith)
copy_each-stored (suc n) [] e w = absurd (omega arith)
copy_each-stored (suc n) (v ∷ vs) e w =
    rw (copy_value-stored v w.0, copy_each-stored n vs (omega arith) w.1)

copy_values-stored :
    (n : ℕ) (p : Option (List Value)) → WholeValues n p → copy_values n p ≡ some (stored_values p)
unfolding copy_values stored_values
copy_values-stored n none w = refl
copy_values-stored n (some vs) w = rw (copy_each-stored n vs w.0 w.1)

-- Copying a whole record never reads outside an array, and gives the record as it is stored.
pub accepted_copy-stored : (a : Accepted) → IsWhole a → accepted_copy a ≡ some (stored a)
unfolding accepted_copy stored
accepted_copy-stored a w = ground (
  arith,
  copy_array-Holds a.n_aids a.aids w.whole_aids,
  copy_values-stored a.n_aids a.values w.whole_values,
  copy_array-Holds a.n_aids a.ballots w.whole_ballots,
  copy_array-Holds a.n_aids a.value_ballots w.whole_value_ballots,
)

map-stored-Whole :
    (n : ℕ) (vs : List Value)
    → (length vs ≡ n) × AllWhole vs
    → (length (map stored_value vs) ≡ n) × AllWhole (map stored_value vs)
map-stored-Whole n [] w = w
map-stored-Whole n (v ∷ vs) (l, w) =
    let (l', w') = map-stored-Whole (length vs) vs (refl, w.1) in
    (omega arith, (stored_value-Whole v w.0, w'))

stored_values-Whole :
    (n : ℕ) (p : Option (List Value)) → WholeValues n p → WholeValues n (stored_values p)
unfolding stored_values
stored_values-Whole n none w = w
stored_values-Whole n (some vs) w = map-stored-Whole n vs w

pub stored-IsWhole : (a : Accepted) → IsWhole a → IsWhole (stored a)
unfolding stored
stored-IsWhole a w = record {
  some_aid = w.some_aid;
  whole_aids = w.whole_aids;
  whole_values = stored_values-Whole a.n_aids a.values w.whole_values;
  whole_ballots = w.whole_ballots;
  whole_value_ballots = w.whole_value_ballots;
}

map-stored-stored : (vs : List Value) → map stored_value (map stored_value vs) ≡ map stored_value vs
map-stored-stored [] = refl
map-stored-stored (v ∷ vs) = rw (stored_value-stored_value v, map-stored-stored vs)

stored_values-stored_values :
    (p : Option (List Value)) → stored_values (stored_values p) ≡ stored_values p
unfolding stored_values
stored_values-stored_values none = refl
stored_values-stored_values (some vs) = rw (map-stored-stored vs)

-- A record that has been stored once is given back as it is.
pub stored-stored : (a : Accepted) → stored (stored a) ≡ stored a
unfolding stored
stored-stored a = rw (stored_values-stored_values a.values)

copy_each-short : (n : ℕ) (vs : List Value) → length vs < n → copy_each copy_value n vs ≡ none
unfolding copy_each
copy_each-short zero vs h = absurd (omega arith)
copy_each-short (suc n) [] h = refl
copy_each-short (suc n) (v ∷ vs) h = ground (arith, copy_each-short n vs)

-- Copying a record with fewer values than `n_aids` says reads outside their array.
pub accepted_copy-short :
    (a : Accepted) (vs : List Value)
    → a.values ≡ some vs
    → length vs < a.n_aids
    → accepted_copy a ≡ none
unfolding accepted_copy copy_values
accepted_copy-short a vs e h = ground (arith, copy_each-short a.n_aids vs h)
