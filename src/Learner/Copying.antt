-- ===== src/Learner/Copying.antt =====
-- `paxos_accepted_deep_copy` of paxos/learner.c, and the records of an instance.
use sciascid_libpaxos_d255f.Base.{
  ℕ, zero, suc, ◌+◌, ◌≡◌, refl, ap, ◌∙◌, inl, inr, Option, none, some, List, [], ◌∷◌, map, length,
  get_elem?, set, Option-cases, subst, ap₂, some_inj, arith,
}
use sciascid_libpaxos_d255f.Types.{Value, Accepted}
use sciascid_libpaxos_d255f.Accepted.{
  null_value, first, read_ptr, read_n, read_n-length, copy_each, copy_array-Holds, WholeValue,
  AllWhole, WholeValues, IsWhole, stored_value, stored_values, stored,
}
use sciascid_libpaxos_d255f.Learner.{value_copy, copy_values, accepted_dup}
use sciascid_libpaxos_d255f.Learner.Votes.{AllAcks}

read_n-zero : (bs : List ℕ) → read_n 0 bs ≡ some []
unfolding read_n
read_n-zero bs = refl

value_copy-whole :
    (v : Value)
    → WholeValue v
    → (w : Value) × (value_copy v ≡ some w) × WholeValue w × (stored_value w ≡ stored_value v)
unfolding value_copy read_ptr read_n stored_value
value_copy-whole v (inr (bs, e, l)) =
    (v, ground (arith, read_n-length v.len bs l), inr (bs, e, l), refl)
value_copy-whole v (inl z) = elim (Option-cases v.val) [
  | inl e ↦ (record { len = v.len; val = none }, ground arith, inl z, ground arith)
  | inr (bs, e) ↦
      (record { len = v.len; val = some [] }, ground (arith, read_n-zero bs), inl z, ground arith)
]

copy_each-whole :
    (n : ℕ) (vs : List Value)
    → length vs ≡ n
    → AllWhole vs
    → (ws : List Value) × (copy_each value_copy n vs ≡ some ws)
      × (length ws ≡ n)
      × AllWhole ws
      × (map stored_value ws ≡ map stored_value vs)
unfolding copy_each
copy_each-whole zero [] e w = ([], refl, refl, tt, refl)
copy_each-whole zero (v ∷ vs) e w = absurd (omega arith)
copy_each-whole (suc n) [] e w = absurd (omega arith)
copy_each-whole (suc n) (v ∷ vs) e (wv, w) =
    let (u, made, wu, same) = value_copy-whole v wv in
    let (us, run, len, wus, sames) = copy_each-whole n vs (omega arith) w in
    (u ∷ us, rw (made, run), omega arith, (wu, wus), ap₂ ◌∷◌ same sames)

copy_values-whole :
    (n : ℕ) (p : Option (List Value))
    → WholeValues n p
    → (q : Option (List Value)) × (copy_values n p ≡ some q)
      × WholeValues n q
      × (stored_values q ≡ stored_values p)
unfolding copy_values stored_values
copy_values-whole n none w = (none, refl, tt, refl)
copy_values-whole n (some vs) w =
    let (ws, run, len, all, same) = copy_each-whole n vs w.0 w.1 in
    (some ws, rw run, (len, all), ap some same)

-- A copy of a whole record is whole, and has the same acceptors, ballots and value bytes.
pub record Copied (a c : Accepted) : Type 0 where
  pub whole : IsWhole c
  pub same_iid : c.iid ≡ a.iid
  pub same_aids : c.aids ≡ a.aids
  pub same_ballots : c.ballots ≡ a.ballots
  pub same_stored : stored c ≡ stored a

pub accepted_dup-whole :
    (a : Accepted) → IsWhole a → (c : Accepted) × (accepted_dup a ≡ some c) × Copied a c
unfolding accepted_dup stored
accepted_dup-whole a w =
    let (q, run, whole, same) = copy_values-whole a.n_aids a.values w.whole_values in
    (
      record a { values = q; value_0 = null_value },
      ground (
        arith,
        w.some_aid,
        run,
        copy_array-Holds a.n_aids a.aids w.whole_aids,
        copy_array-Holds a.n_aids a.ballots w.whole_ballots,
        copy_array-Holds a.n_aids a.value_ballots w.whole_value_ballots,
      ),
      record {
        whole = record {
          some_aid = w.some_aid;
          whole_aids = w.whole_aids;
          whole_values = whole;
          whole_ballots = w.whole_ballots;
          whole_value_ballots = w.whole_value_ballots;
        };
        same_iid = refl;
        same_aids = refl;
        same_ballots = refl;
        same_stored = ap (λ v. record a { value_0 = null_value; values = v }) same;
      },
    )

pub AllAcks-set :
    (k j i : ℕ) (acks : List (Option Accepted)) (a : Accepted)
    → AllAcks k j acks
    → IsWhole a
    → a.iid ≡ k
    → first a.aids ≡ some (j + i)
    → AllAcks k j (set acks i (some a))
AllAcks-set k j i [] a w wa at aid = tt
AllAcks-set k j zero (none ∷ acks) a w wa at aid = ((wa, at, aid ∙ ap some (omega arith)), w)
AllAcks-set k j zero (some b ∷ acks) a w wa at aid = ((wa, at, aid ∙ ap some (omega arith)), w.1)
AllAcks-set k j (suc i) (none ∷ acks) a w wa at aid =
    AllAcks-set k (suc j) i acks a w wa at (aid ∙ ap some (omega arith))
AllAcks-set k j (suc i) (some b ∷ acks) a w wa at aid =
    (w.0, AllAcks-set k (suc j) i acks a w.1 wa at (aid ∙ ap some (omega arith)))

-- A record in the array is whole and of the acceptor of its index.
pub AllAcks-at :
    (k j i : ℕ) (acks : List (Option Accepted)) (a : Accepted)
    → AllAcks k j acks
    → get_elem? acks i ≡ some (some a)
    → IsWhole a × (a.iid ≡ k) × (first a.aids ≡ some (j + i))
AllAcks-at k j i [] a w e = absurd (cc)
AllAcks-at k j zero (none ∷ acks) a w e = absurd (cc)
AllAcks-at k j zero (some b ∷ acks) a w e =
    subst (λ c. IsWhole c × (c.iid ≡ k) × (first c.aids ≡ some (j + 0))) (some_inj (some_inj e))
      (w.0.0, w.0.1, w.0.2 ∙ ap some (omega arith))
AllAcks-at k j (suc i) (none ∷ acks) a w e =
    let (wa, at, aid) = AllAcks-at k (suc j) i acks a w e in (wa, at, aid ∙ ap some (omega arith))
AllAcks-at k j (suc i) (some b ∷ acks) a w e =
    let (wa, at, aid) = AllAcks-at k (suc j) i acks a w.1 e in (wa, at, aid ∙ ap some (omega arith))
