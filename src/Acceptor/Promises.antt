-- ===== src/Acceptor/Promises.antt =====
-- The promise that paxos/acceptor.c makes of a record.
use sciascid_libpaxos_d255f.Base.{
  ℕ, zero, suc, ◌<◌, ◌≡◌, refl, true, false, Option, none, some, List, [], ◌∷◌, ◌==◌, if◌then◌else◌,
  arith,
}
use sciascid_libpaxos_d255f.Types.{Value, Accepted, promise}
use sciascid_libpaxos_d255f.Accepted.{null_value, first, Holds, WholeValues, IsWhole, stored_value}
use sciascid_libpaxos_d255f.Acceptor.Convert.{
  promised_value, accepted_to_promise, search_aid, has_aid,
}
use sciascid_libpaxos_d255f.Acceptor.Valid.{ballot_of, first-ballots, clone_value-whole}

-- The promise that reports one acceptor, one ballot and one value.
abbrev pub promise_for : ℕ → ℕ → ℕ → ℕ → ℕ → Value → Accepted
promise_for src iid ballot value_ballot aid v = record {
  src = src;
  iid = iid;
  ballot_0 = ballot;
  value_ballot_0 = value_ballot;
  n_aids = 1;
  aids = some (aid ∷ []);
  value_0 = null_value;
  values = some (v ∷ []);
  ballots = some (ballot ∷ []);
  value_ballots = some (value_ballot ∷ []);
}

-- The value of index 0, if there is one.
abbrev pub value_of : Option (List Value) → Value
value_of none = null_value
value_of (some []) = null_value
value_of (some (v ∷ vs)) = v

first_entry : {n : ℕ} (p : Option (List ℕ)) → 0 < n → Holds n p → (x : ℕ) × (first p ≡ some x)
unfolding first
first_entry none h e = absurd e
first_entry (some []) h e = absurd (omega arith)
first_entry (some (x ∷ xs)) h e = (x, refl)

promised_value-whole :
    {n : ℕ} (p : Option (List Value))
    → 0 < n
    → WholeValues n p
    → (v : Value) × (promised_value p ≡ some v) × (stored_value v ≡ stored_value (value_of p))
unfolding promised_value
promised_value-whole none h w = (null_value, refl, refl)
promised_value-whole (some []) h w = absurd (omega arith)
promised_value-whole (some (v ∷ vs)) h w =
    let (u, e, _, same) = clone_value-whole v w.1.0 in (u, e, same)

-- A whole record can be promised, with its own ballot and value.
pub accepted_to_promise-whole :
    (r : Accepted) (id : ℕ)
    → IsWhole r
    → first r.aids ≡ some id
    → (value_ballot : ℕ) × (v : Value) × (accepted_to_promise r
        ≡ some (promise (promise_for r.src r.iid (ballot_of r) value_ballot id v)))
      × (first r.value_ballots ≡ some value_ballot)
      × (stored_value v ≡ stored_value (value_of r.values))
unfolding accepted_to_promise
accepted_to_promise-whole r id w own =
    let (vb, e) = first_entry r.value_ballots w.some_aid w.whole_value_ballots in
    let (v, made, same) = promised_value-whole r.values w.some_aid w.whole_values in
    (vb, v, rw (first-ballots r w, e, own, made), e, same)

-- The acceptor's own id stands first, so the search ends there.
pub has_aid-own :
    (r : Accepted) (id : ℕ) → 0 < r.n_aids → first r.aids ≡ some id → has_aid id r ≡ some true
unfolding has_aid search_aid first
has_aid-own r id h e = go r.n_aids r.aids h e
  where
    go :
        (n : ℕ) (p : Option (List ℕ))
        → 0 < n
        → first p ≡ some id
        → (elim p [ none ↦ if n == 0 then some false else none | some xs ↦ search_aid id n xs ])
          ≡ some true
    go n none h e = absurd (cc)
    go zero (some xs) h e = absurd (omega arith)
    go (suc n) (some []) h e = absurd (cc)
    go (suc n) (some (x ∷ xs)) h e = ground arith
