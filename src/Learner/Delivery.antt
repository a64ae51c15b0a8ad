-- ===== src/Learner/Delivery.antt =====
-- `learner_deliver_next` of paxos/learner.c: values are delivered in the order of the instances.
use native.Mathlib.Decide.{dec_lt}
use sciascid_libpaxos_d255f.Base.{
  ℕ, ◌+◌, ◌%◌, ◌≤◌, ◌<◌, ◌≡◌, ◌≢◌, refl, sym, ap, ◌∙◌, inl, inr, u32_mod, Bool, true, false, Option,
  none, some, get_elem?, ◌==◌, Option-cases, if_some, arith,
}
use sciascid_libpaxos_d255f.Types.{Accepted, paxos_quorum}
use sciascid_libpaxos_d255f.Accepted.{ballot_of}
use sciascid_libpaxos_d255f.KHash.{KHash, IsTable}
use sciascid_libpaxos_d255f.KHash.Changes.{del-other, del_self, put-same}
use sciascid_libpaxos_d255f.Learner.{Instance, Learner, has_quorum, deliver_instance, deliver_next}
use sciascid_libpaxos_d255f.Learner.Votes.{votes}
use sciascid_libpaxos_d255f.Learner.Closing.{Checked, has_quorum_lem}
use sciascid_libpaxos_d255f.Learner.Copying.{Copied, accepted_dup-whole, AllAcks-at}
use sciascid_libpaxos_d255f.Learner.Progress.{IsHeld, IsValid}

module _ (table : KHash Instance) (ok : IsTable table) where
  -- What `learner_deliver_next` has delivered, and what it leaves.
  pub data Delivered (l : Learner table) (out : Option Accepted) (l' : Learner table) : Type 0 where
    -- There is no message of the current instance.
    unknown : table.get l.instances l.current_iid ≡ none → out ≡ none → l' ≡ l → Delivered l out l'
    -- No majority of the acceptors agrees yet.
    waits :
        (inst : Instance)
        → table.get l.instances l.current_iid ≡ some inst
        → votes inst.last_update_ballot inst.acks < paxos_quorum l.acceptors
        → out ≡ none
        → ((k : ℕ) → table.get l'.instances k ≡ table.get l.instances k)
        → l'.current_iid ≡ l.current_iid
        → l'.acceptors ≡ l.acceptors
        → Delivered l out l'
    -- A majority agrees, and `out` copies the record of one of them.
    delivers :
        (inst : Instance) (i : ℕ) (ack c : Accepted)
        → table.get l.instances l.current_iid ≡ some inst
        → paxos_quorum l.acceptors ≤ votes inst.last_update_ballot inst.acks
        → get_elem? inst.acks i ≡ some (some ack)
        → ballot_of ack ≡ inst.last_update_ballot
        → ack.iid ≡ l.current_iid
        → Copied ack c
        → out ≡ some c
        → table.get l'.instances l.current_iid ≡ none
        → ((k : ℕ) → k ≢ l.current_iid → table.get l'.instances k ≡ table.get l.instances k)
        → l'.current_iid ≡ (l.current_iid + 1) % u32_mod
        → l'.acceptors ≡ l.acceptors
        → Delivered l out l'

  -- The learner behind a delivery of the instance `k`.
  abbrev behind : Learner table → ℕ → Learner table
  behind l k = record l {
    instances = table.del l.instances k;
    current_iid = (l.current_iid + 1) % u32_mod;
  }

  behind-IsValid : (l : Learner table) (k : ℕ) → IsValid table ok l → IsValid table ok (behind l k)
  behind-IsValid l k w x found e =
      if_some (λ i. IsHeld l.acceptors x i) (k == x) none (table.get l.instances x) found
        (sym (ok.get-del l.instances k x) ∙ e) (λ same n. absurd (cc)) (λ there. w x found there)

  Delivered-now :
      (l : Learner table) (inst inst' : Instance)
      → IsValid table ok l
      → table.get l.instances l.current_iid ≡ some inst
      → inst.iid ≡ l.current_iid
      → has_quorum inst l.acceptors ≡ some (true, inst')
      → Checked l.acceptors l.current_iid inst true inst'
      → (out : Option Accepted) × (l' : Learner table) × (deliver_instance table l inst
          ≡ some (out, l'))
        × IsValid table ok l'
        × Delivered l out l'
  unfolding deliver_instance
  Delivered-now l inst inst' w e at run ch =
      let (i, final) = ch.closed_final refl in
      let g = (ch.sound.final_agrees i final).0 in
      let (whole, iid_is, _) = AllAcks-at l.current_iid 0 i inst'.acks g.ack ch.sound.whole g.at in
      let (c, made, copied) = accepted_dup-whole g.ack whole in
      (
        some c,
        behind l inst'.iid,
        rw (run, final, g.at, made) refl,
        behind-IsValid l inst'.iid w,
        Delivered.delivers inst i g.ack c e (ch.majority.0 refl)
            (ap (λ xs. get_elem? xs i) (sym ch.same_acks) ∙ g.at) (g.ballot_is ∙ ch.same_ballot)
            iid_is copied refl
            (ap (λ k. table.get (table.del l.instances k) l.current_iid) (ch.same_iid ∙ at)
              ∙ del_self table ok l.instances l.current_iid)
            (λ k ne.
              del-other table ok l.instances inst'.iid k (λ same. ne (same ∙ ch.same_iid ∙ at)))
            refl refl,
      )

  waits_now :
      (l : Learner table) (inst inst' : Instance)
      → IsValid table ok l
      → table.get l.instances l.current_iid ≡ some inst
      → has_quorum inst l.acceptors ≡ some (false, inst')
      → Checked l.acceptors l.current_iid inst false inst'
      → (out : Option Accepted) × (l' : Learner table) × (deliver_instance table l inst
          ≡ some (out, l'))
        × IsValid table ok l'
        × Delivered l out l'
  unfolding deliver_instance
  waits_now l inst inst' w e run ch =
      let there = e ∙ ap some (sym (ch.open_same refl)) in
      let same = λ (k : ℕ). put-same table ok l.instances l.current_iid k inst' there in
      (
        none,
        record l { instances = table.put l.instances l.current_iid inst' },
        rw run refl,
        (λ k found h. w k found (sym (same k) ∙ h)),
        Delivered.waits inst e (few ch) refl same refl refl,
      )
    where
      impossible : false ≡ true → ⊥
      impossible h = cc

      few :
          {n k : ℕ} {i i' : Instance}
          → Checked n k i false i'
          → votes i.last_update_ballot i.acks < paxos_quorum n
      few {n} {i = i} c = elim (dec_lt (votes i.last_update_ballot i.acks) (paxos_quorum n)) [
        | yes h ↦ h
        | no h ↦ absurd (impossible (c.majority.1 (omega arith)))
      ]

  deliver_next-some :
      (l : Learner table) (inst : Instance)
      → table.get l.instances l.current_iid ≡ some inst
      → deliver_next table l ≡ deliver_instance table l inst
  unfolding deliver_next
  deliver_next-some l inst e =
      ap
        (λ (o : Option Instance). elim o [
          | none ↦ some (none, l)
          | some i ↦ deliver_instance table l i
        ])
        e

  deliver_next-none :
      (l : Learner table)
      → table.get l.instances l.current_iid ≡ none
      → deliver_next table l ≡ some (none, l)
  unfolding deliver_next
  deliver_next-none l e =
      ap
        (λ (o : Option Instance). elim o [
          | none ↦ some (none, l)
          | some i ↦ deliver_instance table l i
        ])
        e

  -- `learner_deliver_next` never faults on a valid learner and keeps it valid. It delivers exactly
  -- if more than half of the acceptors have last accepted the current instance with the ballot of
  -- its last update: then it hands out a copy of the record of one of them, of the current
  -- instance, removes that instance and no other, and goes on to the next id; else it changes
  -- nothing.
  pub deliver_next_lem :
      (l : Learner table)
      → IsValid table ok l
      → (out : Option Accepted) × (l' : Learner table) × (deliver_next table l ≡ some (out, l'))
        × IsValid table ok l'
        × Delivered l out l'
  deliver_next_lem l w = elim (Option-cases (table.get l.instances l.current_iid)) [
    | inl e ↦ (none, l, deliver_next-none l e, w, Delivered.unknown e refl refl)
    | inr (inst, e) ↦
        let held = w l.current_iid inst e in
        let (done, inst', run, ch) =
          has_quorum_lem l.acceptors l.current_iid inst held.sound held.iid_is in
        rw (deliver_next-some l inst e) (on_answer l inst inst' done w e held.iid_is run ch)
  ]
    where
      on_answer :
          (l : Learner table) (inst inst' : Instance) (done : Bool)
          → IsValid table ok l
          → table.get l.instances l.current_iid ≡ some inst
          → inst.iid ≡ l.current_iid
          → has_quorum inst l.acceptors ≡ some (done, inst')
          → Checked l.acceptors l.current_iid inst done inst'
          → (out : Option Accepted) × (l' : Learner table) × (deliver_instance table l inst
              ≡ some (out, l'))
            × IsValid table ok l'
            × Delivered l out l'
      on_answer l inst inst' true w e at run ch = Delivered-now l inst inst' w e at run ch
      on_answer l inst inst' false w e at run ch = waits_now l inst inst' w e run ch
