-- ===== src/Evlearner/Draining.antt =====
-- The loop `evlearner_deliver_next_closed` of evpaxos/evlearner.c: it ends, and delivers in order.
use sciascid_libpaxos_d255f.Base.{
  ℕ, zero, suc, ◌≤◌, ◌<◌, ◌≡◌, refl, sym, ap, ◌∙◌, inl, inr, Option, none, some, List, [], ◌∷◌,
  length, get_elem?, subst, arith,
}
use sciascid_libpaxos_d255f.Types.{Value, Accepted, paxos_quorum}
use sciascid_libpaxos_d255f.Accepted.{first, ballot_of, stored, stored_values}
use sciascid_libpaxos_d255f.KHash.{KHash, IsTable}
use sciascid_libpaxos_d255f.KHash.Held.{
  held_keys, held_keys-le_length, held_keys-less, Fewer-but, Covers, Covers-Fewer, Covers-keys,
}
use sciascid_libpaxos_d255f.Learner.{Instance, Learner, deliver_next}
use sciascid_libpaxos_d255f.Learner.Votes.{votes}
use sciascid_libpaxos_d255f.Learner.Copying.{Copied, AllAcks-at}
use sciascid_libpaxos_d255f.Learner.Progress.{IsValid}
use sciascid_libpaxos_d255f.Learner.Delivery.{Delivered, deliver_next_lem}
use sciascid_libpaxos_d255f.Evlearner.{Delivery, deliver_next_closed}
use sciascid_libpaxos_d255f.Evlearner.Chosen.{
  first_value, AllValued, IsChosen, Drained, Drained-Waits, Drained-more, AllValued-Fewer,
}

module _ (table : KHash Instance) (ok : IsTable table) where
  -- A result of the loop.
  abbrev Runs : ℕ → Learner table → Type 0
  Runs n l =
      (ds : List Delivery) × (l' : Learner table) × (deliver_next_closed table n l ≡ some (ds, l'))
      × Drained table ok l ds l'

  first_delivered :
      (l : Learner table) (inst : Instance) (i : ℕ) (ack c : Accepted)
      → IsValid table ok l
      → AllValued table ok l
      → table.get l.instances l.current_iid ≡ some inst
      → paxos_quorum l.acceptors ≤ votes inst.last_update_ballot inst.acks
      → get_elem? inst.acks i ≡ some (some ack)
      → ballot_of ack ≡ inst.last_update_ballot
      → ack.iid ≡ l.current_iid
      → Copied ack c
      → (w : Value) × (first c.values ≡ some w)
        × IsChosen table ok l (record { iid = c.iid; value = w })
  unfolding stored_values stored
  first_delivered l inst i ack c w vals found most there agrees is copied =
      let (whole, _, _) =
        AllAcks-at l.current_iid 0 i inst.acks ack (w l.current_iid inst found).sound.whole there in
      let (vs, e) = vals l.current_iid inst found i ack there in
      let (v, u, was, now, same) =
        first_value ack.n_aids c.n_aids ack.values c.values vs whole.some_aid copied.whole.some_aid
          whole.whole_values e copied.whole.whole_values
          (ap (λ (r : Accepted). r.values) copied.same_stored) in
      (
        u,
        now,
        record {
          inst = inst;
          at = i;
          ack = ack;
          value = v;
          found = ap (table.get l.instances) (copied.same_iid ∙ is) ∙ found;
          majority = most;
          accepted = there;
          agrees = agrees;
          valued = was;
          same_bytes = same;
        },
      )

  step :
      (n : ℕ) (ks : List ℕ) (l l₁ : Learner table) (out : Option Accepted)
      → ((l₂ : Learner table)
          → IsValid table ok l₂
          → AllValued table ok l₂
          → Covers ks (table.get l₂.instances)
          → held_keys (table.get l₂.instances) ks < n
          → Runs n l₂)
      → IsValid table ok l
      → AllValued table ok l
      → Covers ks (table.get l.instances)
      → held_keys (table.get l.instances) ks < suc n
      → deliver_next table l ≡ some (out, l₁)
      → IsValid table ok l₁
      → Delivered table ok l out l₁
      → Runs (suc n) l
  unfolding deliver_next_closed
  step n ks l l₁ out again w vals cov few run w₁ (Delivered.unknown e o same) = (
    [],
    l₁,
    rw (run, o) refl,
    Drained-Waits table ok l l₁ w₁
        (inl (subst (λ x. table.get x.instances x.current_iid ≡ none) (sym same) e))
        (λ k. ap (λ x. table.get x.instances k) same) (ap (λ x. x.current_iid) same)
        (ap (λ x. x.acceptors) same),
  )
  step n ks l l₁ out again w vals cov few run w₁ (Delivered.waits inst e less o same iid k) = (
    [],
    l₁,
    rw (run, o) refl,
    Drained-Waits table ok l l₁ w₁
        (inr (inst, ap (table.get l₁.instances) iid ∙ same l.current_iid ∙ e, rw k less)) same iid
        k,
  )
  step n ks l l₁ out again w vals cov few run w₁
        (Delivered.delivers inst i ack c e most there agrees is copied o gone others next k) =
      let less =
        Fewer-but (table.get l.instances) (table.get l₁.instances) l.current_iid gone others in
      let (u, now, chosen) = first_delivered l inst i ack c w vals e most there agrees is copied in
      let (ds, l₂, rest, drained) =
        again l₁ w₁ (AllValued-Fewer table ok l l₁ less vals)
          (Covers-Fewer ks (table.get l.instances) (table.get l₁.instances) less cov)
          (omega (
            arith,
            few,
            held_keys-less (table.get l.instances) (table.get l₁.instances) l.current_iid inst ks
                less e gone (cov l.current_iid inst e),
          )) in
      (
        record { iid = c.iid; value = u } ∷ ds,
        l₂,
        rw (run, o, now, rest) refl,
        Drained-more table ok l l₁ l₂ (record { iid = c.iid; value = u }) ds chosen
            (copied.same_iid ∙ is) next k less drained,
      )

  loop :
      (n : ℕ) (ks : List ℕ) (l : Learner table)
      → IsValid table ok l
      → AllValued table ok l
      → Covers ks (table.get l.instances)
      → held_keys (table.get l.instances) ks < n
      → Runs n l
  loop zero ks l w vals cov few = absurd (omega arith)
  loop (suc n) ks l w vals cov few =
      let (out, l₁, run, w₁, d) = deliver_next_lem table ok l w in
      step n ks l l₁ out (loop n ks) w vals cov few run w₁ d

  -- On a valid learner whose records all have values, the loop of `evlearner_deliver_next_closed`
  -- ends after at most one call more than the table has keys, and never faults. It delivers the
  -- current instance and those behind it, in the order of their ids and without a gap, each with a
  -- value that a majority of the acceptors has accepted, and stops at the first instance on which
  -- no majority agrees. It keeps the learner valid and adds nothing to its table.
  pub deliver_next_closed_lem :
      (n : ℕ) (l : Learner table)
      → IsValid table ok l
      → AllValued table ok l
      → length (table.keys l.instances) < n
      → (ds : List Delivery) × (l' : Learner table) × (deliver_next_closed table n l
          ≡ some (ds, l'))
        × Drained table ok l ds l'
  deliver_next_closed_lem n l w vals few =
      loop n (table.keys l.instances) l w vals (Covers-keys table ok l.instances)
        (omega (arith, few, held_keys-le_length (table.get l.instances) (table.keys l.instances)))
