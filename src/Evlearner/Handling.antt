-- ===== src/Evlearner/Handling.antt =====
-- `evlearner_handle_accepted` of evpaxos/evlearner.c.
use sciascid_libpaxos_d255f.Base.{
  ℕ, zero, suc, ◌<◌, ◌≡◌, ◌≢◌, refl, sym, ap, ◌∙◌, ◌⊎◌, inl, inr, false, Option, none, some, List,
  [], ◌∷◌, length, replicate, set, get_elem?, ◌==◌, Bool-cases, Option-cases, ==_iff, subst,
  some_inj, arith,
}
use sciascid_libpaxos_d255f.Types.{Value, Accepted}
use sciascid_libpaxos_d255f.Accepted.{first, IsWhole, stored, stored_values}
use sciascid_libpaxos_d255f.KHash.{KHash, IsTable}
use sciascid_libpaxos_d255f.Learner.{Instance, Learner, instance_new}
use sciascid_libpaxos_d255f.Learner.Update.{Effect}
use sciascid_libpaxos_d255f.Learner.Copying.{Copied}
use sciascid_libpaxos_d255f.Learner.Progress.{IsValid, Received, started, receive_accepted_lem}
use sciascid_libpaxos_d255f.Evlearner.{Delivery, handle_accepted}
use sciascid_libpaxos_d255f.Evlearner.Draining.{deliver_next_closed_lem}
use sciascid_libpaxos_d255f.Evlearner.Chosen.{Valued, AllValued, AllValued-Fewer, Drained}

Valued-new : (n i : ℕ) (ack : Accepted) → get_elem? (replicate n none) i ≡ some (some ack) → ⊥
Valued-new zero i ack e = cc
Valued-new (suc n) zero ack e = cc
Valued-new (suc n) (suc i) ack e = Valued-new n i ack e

-- A copy of a record with values has values.
Copied-valued :
    (ack c : Accepted) (vs : List Value)
    → Copied ack c
    → ack.values ≡ some vs
    → (ws : List Value) × (c.values ≡ some ws)
unfolding stored stored_values
Copied-valued ack c vs copied e = elim (Option-cases c.values) [
  | inr there ↦ there
  | inl n ↦ absurd (
      clash (
        ap stored_values (sym n)
        ∙ ap (λ (r : Accepted). r.values) copied.same_stored
        ∙ ap stored_values e))
]
  where
    clash : {us : List Value} → ◌≡◌ {A = Option (List Value)} none (some us) → ⊥
    clash h = cc

Valued-set :
    (acks : List (Option Accepted)) (j : ℕ) (c : Accepted) (vs : List Value)
    → Valued acks
    → c.values ≡ some vs
    → Valued (set acks j (some c))
Valued-set [] j c vs v e i ack at = absurd (cc)
Valued-set (a ∷ acks) zero c vs v e zero ack at =
    (vs, ap (λ (r : Accepted). r.values) (some_inj (some_inj (sym at))) ∙ e)
Valued-set (a ∷ acks) zero c vs v e (suc i) ack at = v (suc i) ack at
Valued-set (a ∷ acks) (suc j) c vs v e zero ack at = v zero ack at
Valued-set (a ∷ acks) (suc j) c vs v e (suc i) ack at =
    Valued-set acks j c vs (λ x b h. v (suc x) b h) e i ack at

Valued-Effect :
    (inst inst' : Instance) (ack : Accepted) (j : ℕ) (vs : List Value)
    → Valued inst.acks
    → ack.values ≡ some vs
    → Effect inst ack j inst'
    → Valued inst'.acks
Valued-Effect inst inst' ack j vs v e (Effect.closed i f keep) = subst Valued (sym keep) v
Valued-Effect inst inst' ack j vs v e (Effect.stale prev at le keep f) = subst Valued (sym keep) v
Valued-Effect inst inst' ack j vs v e (Effect.added c copied put b f) =
    let (ws, there) = Copied-valued ack c vs copied e in
    subst Valued (sym put) (Valued-set inst.acks j c ws v there)

module _ (table : KHash Instance) (ok : IsTable table) where
  AllValued-put :
      (l l' : Learner table) (k : ℕ) (inst' : Instance)
      → AllValued table ok l
      → Valued inst'.acks
      → table.get l'.instances k ≡ some inst'
      → ((x : ℕ) → x ≢ k → table.get l'.instances x ≡ table.get l.instances x)
      → AllValued table ok l'
  AllValued-put l l' k inst' vals v here others x inst e = elim (Bool-cases (x == k)) [
    | inl same ↦
        subst (λ i. Valued i.acks)
          (some_inj (sym here ∙ ap (table.get l'.instances) (sym ((==_iff x k).0 same)) ∙ e)) v
    | inr other ↦ vals x inst (sym (others x (λ h. absurd (differ other h))) ∙ e)
  ]
    where
      differ : {x k : ℕ} → (x == k) ≡ false → x ≡ k → ⊥
      differ ne same = ground arith

  -- Where the instance of a message comes from, its records have values.
  Valued-from :
      (l : Learner table) (k : ℕ) (inst : Instance)
      → AllValued table ok l
      → (table.get l.instances k ≡ some inst)
        ⊎ ((table.get l.instances k ≡ none) × (inst ≡ instance_new l.acceptors))
      → Valued inst.acks
  unfolding instance_new
  Valued-from l k inst vals (inl e) = vals k inst e
  Valued-from l k inst vals (inr (n, e)) =
      subst (λ (i : Instance). Valued i.acks) (sym e)
        (λ i ack at. absurd (Valued-new l.acceptors i ack at))

  AllValued-Received :
      (l : Learner table) (ack : Accepted) (j : ℕ) (l' : Learner table) (vs : List Value)
      → AllValued table ok l
      → ack.values ≡ some vs
      → Received table ok l ack j l'
      → AllValued table ok l'
  AllValued-Received l ack j l' vs vals e (Received.dropped old same) =
      subst (AllValued table ok) (sym same) vals
  AllValued-Received l ack j l' vs vals e
        (Received.taken inst upd inst' done due from u ch at others c h) =
      AllValued-put l l' ack.iid inst' vals
        (subst Valued (sym ch.same_acks)
          (Valued-Effect inst upd ack j vs (Valued-from l ack.iid inst vals from) e u.effect))
        at others

  AllValued-started :
      (l : Learner table) (ack : Accepted)
      → AllValued table ok l
      → AllValued table ok (started table ok l ack)
  AllValued-started l ack vals = elim (Bool-cases l.late_start) [
    | inl e ↦ rw e vals
    | inr e ↦ rw e vals
  ]

  -- `evlearner_handle_accepted` ends and never faults on a valid learner whose records all have
  -- values, and on a message of an instance other than 0, from one of the acceptors, with all its
  -- arrays and values, if the table has memory. It receives the message as the learner does, and
  -- then delivers, in order, what is chosen from the current instance on. Afterwards the learner is
  -- valid, its records all have values, and no majority agrees on its current instance.
  pub handle_accepted_lem :
      (l : Learner table) (ack : Accepted) (j : ℕ) (vs : List Value)
      → IsValid table ok l
      → AllValued table ok l
      → 0 < ack.iid
      → IsWhole ack
      → ack.values ≡ some vs
      → first ack.aids ≡ some j
      → j < l.acceptors
      → table.no_memory l.instances ack.iid ≡ false
      → (l₁ : Learner table) × (ds : List Delivery) × (l' : Learner table) × (handle_accepted table
            l ack
          ≡ some (ds, l'))
        × Received table ok (started table ok l ack) ack j l₁
        × Drained table ok l₁ ds l'
        × AllValued table ok l'
  unfolding handle_accepted
  handle_accepted_lem l ack j vs w vals pos wa e aid lt room =
      let (l₁, run, w₁, n, r) = receive_accepted_lem table ok l ack j w pos wa aid lt room in
      let vals₁ =
        AllValued-Received (started table ok l ack) ack j l₁ vs (AllValued-started l ack vals) e
          r in
      let (ds, l', rest, d) =
        deliver_next_closed_lem table ok (suc (length (table.keys l₁.instances))) l₁ w₁ vals₁
          (omega arith) in
      (l₁, ds, l', rw (run, rest) refl, r, d, AllValued-Fewer table ok l₁ l' d.fewer vals₁)
