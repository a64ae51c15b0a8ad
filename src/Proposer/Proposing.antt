-- ===== src/Proposer/Proposing.antt =====
-- `proposer_accept` of paxos/proposer.c: which instance it takes.
use sciascid_libpaxos_d255f.Base.{
  ℕ, ◌≤◌, ◌≡◌, refl, sym, ap, ◌∙◌, ◌⊎◌, inl, inr, Bool, true, false, Option, none, some, List, [],
  ◌∷◌, ltb, if◌then◌else◌, Member, Bool-cases, Option-cases, some_inj, subst, arith, not, ◌&&◌,
}
use sciascid_libpaxos_d255f.Types.{Value}
use sciascid_libpaxos_d255f.KHash.{KHash, IsTable}
use sciascid_libpaxos_d255f.Proposer.{Instance, Proposer}
use sciascid_libpaxos_d255f.Proposer.Accepts.{smallest, has_pointer, to_accept, accept_valued}
use sciascid_libpaxos_d255f.Quorum.{clear}

module _ (table : KHash Instance) (ok : IsTable table) (junk : Value) where
  -- The instance that the loop has found, over the keys that it has seen and the one before.
  pub data Found (t : table.Table) (ks : List ℕ) (best : Option Instance) (found : Option Instance)
      : Type 0 where
    nothing :
        found ≡ none
        → best ≡ none
        → ((k : ℕ) → Member k ks → table.get t k ≡ none)
        → Found t ks best found
    least :
        (inst : Instance)
        → found ≡ some inst
        → (best ≡ some inst) ⊎ ((k : ℕ) × (table.get t k ≡ some inst))
        → ((b : Instance) → best ≡ some b → inst.iid ≤ b.iid)
        → ((k : ℕ) (j : Instance) → Member k ks → table.get t k ≡ some j → inst.iid ≤ j.iid)
        → Found t ks best found

  -- The smaller one of an instance and the best so far.
  abbrev better : Instance → Option Instance → Instance
  better inst best = elim best [ none ↦ inst | some b ↦ if ltb inst.iid b.iid then inst else b ]

  smallest-none :
      (t : table.Table) (k : ℕ) (ks : List ℕ) (best : Option Instance)
      → table.get t k ≡ none
      → smallest table junk t (k ∷ ks) best ≡ smallest table junk t ks best
  unfolding smallest
  smallest-none t k ks best e =
      ap
        (λ (o : Option Instance). smallest table junk t ks (elim o [
          | none ↦ best
          | some inst ↦ elim best [
            | none ↦ some inst
            | some b ↦ if ltb inst.iid b.iid then some inst else some b
          ]
        ]))
        e

  smallest-some :
      (t : table.Table) (k : ℕ) (ks : List ℕ) (best : Option Instance) (inst : Instance)
      → table.get t k ≡ some inst
      → smallest table junk t (k ∷ ks) best ≡ smallest table junk t ks (some (better inst best))
  unfolding smallest
  smallest-some t k ks best inst e =
      ap
        (λ (o : Option Instance). smallest table junk t ks (elim o [
          | none ↦ best
          | some inst ↦ elim best [
            | none ↦ some inst
            | some b ↦ if ltb inst.iid b.iid then some inst else some b
          ]
        ]))
        e
      ∙ ap (smallest table junk t ks) (picked best)
    where
      by_test :
          (c : Bool) (b : Instance)
          → ◌≡◌ {A = Option Instance}
              (if c then some inst else some b)
              (some (if c then inst else b))
      by_test true b = refl
      by_test false b = refl

      picked :
          (best : Option Instance)
          → ◌≡◌ {A = Option Instance}
              (elim best [
                | none ↦ some inst
                | some b ↦ if ltb inst.iid b.iid then some inst else some b
              ])
              (some (better inst best))
      picked none = refl
      picked (some b) = by_test (ltb inst.iid b.iid) b

  Found-skip :
      (t : table.Table) (k : ℕ) (ks : List ℕ) (best found : Option Instance)
      → table.get t k ≡ none
      → Found t ks best found
      → Found t (k ∷ ks) best found
  Found-skip t k ks best found e (Found.nothing f n all) =
      Found.nothing f n
        (λ j m. elim m [ inl same ↦ ap (table.get t) same ∙ e | inr rest ↦ all j rest ])
  Found-skip t k ks best found e (Found.least i f from le all) =
      Found.least i f from le
        (λ j x m g. elim m [ inl same ↦ absurd (missing j x same g) | inr rest ↦ all j x rest g ])
    where
      missing : (j : ℕ) (x : Instance) → j ≡ k → table.get t j ≡ some x → ⊥
      missing j x same g = cc

  Found-next :
      (t : table.Table) (k : ℕ) (ks : List ℕ) (best found : Option Instance) (inst : Instance)
      → table.get t k ≡ some inst
      → Found t ks (some (better inst best)) found
      → Found t (k ∷ ks) best found
  Found-next t k ks none found inst e (Found.nothing f n _) = absurd (cc)
  Found-next t k ks (some b) found inst e (Found.nothing f n _) = absurd (cc)
  Found-next t k ks none found inst e (Found.least i f from le all) =
      Found.least i f (from_new from) (λ b h. absurd (cc))
        (λ j x m g. elim m [
          | inl same ↦
              subst (λ (y : Instance). i.iid ≤ y.iid)
                (some_inj (sym e ∙ ap (table.get t) (sym same) ∙ g)) (le inst refl)
          | inr rest ↦ all j x rest g
        ])
    where
      from_new :
          (◌≡◌ {A = Option Instance} (some inst) (some i)) ⊎ ((k : ℕ) × (table.get t k ≡ some i))
          → (none ≡ some i) ⊎ ((k : ℕ) × (table.get t k ≡ some i))
      from_new (inl same) = inr (k, e ∙ same)
      from_new (inr there) = inr there
  Found-next t k ks (some b) found inst e (Found.least i f from le all) =
      Found.least i f (from_better (Bool-cases (ltb inst.iid b.iid)) from)
        (λ c h. omega (
          arith,
          least.1,
          ap {B = ℕ} (λ (o : Option Instance). elim o [ none ↦ 0 | some x ↦ x.iid ]) h,
        ))
        (λ j x m g. elim m [
          | inl same ↦
              subst (λ (y : Instance). i.iid ≤ y.iid)
                (some_inj (sym e ∙ ap (table.get t) (sym same) ∙ g)) least.0
          | inr rest ↦ all j x rest g
        ])
    where
      least : (i.iid ≤ inst.iid) × (i.iid ≤ b.iid)
      least = elim (Bool-cases (ltb inst.iid b.iid)) [
        | inl small ↦
            let h : i.iid ≤ inst.iid = le inst (rw small refl) in (h, ground (arith, h, small))
        | inr large ↦ let h : i.iid ≤ b.iid = le b (rw large refl) in (ground (arith, h, large), h)
      ]

      from_better :
          (ltb inst.iid b.iid ≡ true) ⊎ (ltb inst.iid b.iid ≡ false)
          → (◌≡◌ {A = Option Instance} (some (better inst (some b))) (some i))
            ⊎ ((k : ℕ) × (table.get t k ≡ some i))
          → (◌≡◌ {A = Option Instance} (some b) (some i)) ⊎ ((k : ℕ) × (table.get t k ≡ some i))
      from_better c (inr there) = inr there
      from_better (inl small) (inl same) = inr (k, e ∙ (rw small at same))
      from_better (inr large) (inl same) = inl (rw large at same)

  -- The loop of `proposer_accept` finds the pending instance with the smallest id.
  pub smallest_lem :
      (t : table.Table) (ks : List ℕ) (best : Option Instance)
      → Found t ks best (smallest table junk t ks best)
  unfolding smallest
  smallest_lem t [] none = Found.nothing refl refl (λ k m. absurd m)
  smallest_lem t [] (some b) =
      Found.least b refl (inl refl)
        (λ c h.
          omega
            (arith, ap {B = ℕ} (λ (o : Option Instance). elim o [ none ↦ 0 | some x ↦ x.iid ]) h))
        (λ k j m. absurd m)
  smallest_lem t (k ∷ ks) best = elim (Option-cases (table.get t k)) [
    | inl e ↦
        subst (Found t (k ∷ ks) best) (sym (smallest-none t k ks best e))
          (Found-skip t k ks best _ e (smallest_lem t ks best))
    | inr (inst, e) ↦
        subst (Found t (k ∷ ks) best) (sym (smallest-some t k ks best inst e))
          (Found-next t k ks best _ inst e (smallest_lem t ks (some (better inst best))))
  ]

  -- The value that an instance proposes: the promised one goes first.
  abbrev pub Chosen : Instance → Value → Type 0
  Chosen inst v =
      (inst.promised_value ≡ some v) ⊎ ((inst.promised_value ≡ none) × (inst.value ≡ some v))

  Chosen-has_pointer :
      (inst : Instance) (v : Value)
      → Chosen inst v
      → (not (has_pointer inst.value) && not (has_pointer inst.promised_value)) ≡ false
  unfolding has_pointer
  Chosen-has_pointer inst v (inl e) = ground arith
  Chosen-has_pointer inst v (inr (_, e)) = ground arith

  to_accept-Chosen :
      (id : ℕ) (inst : Instance) (v : Value)
      → Chosen inst v
      → to_accept id inst
        ≡ some (record { src = id; iid = inst.iid; ballot = inst.ballot; value = v })
  unfolding to_accept
  to_accept-Chosen id inst v (inl e) = ground arith
  to_accept-Chosen id inst v (inr (n, e)) = ground arith

  -- The instance with its quorum cleared, for the second phase.
  abbrev pub moved : Instance → Instance
  moved inst = record inst { quorum = clear inst.quorum }

  pub accept_valued_lem :
      (p : Proposer table junk) (inst old : Instance) (v : Value)
      → table.get p.prepare_instances inst.iid ≡ some old
      → table.get p.accept_instances inst.iid ≡ none
      → table.no_memory p.accept_instances inst.iid ≡ false
      → Chosen inst v
      → accept_valued table junk p inst
        ≡ some (
          some (record { src = p.id; iid = inst.iid; ballot = inst.ballot; value = v }),
          record p {
            prepare_instances = table.del p.prepare_instances inst.iid;
            accept_instances = table.put p.accept_instances inst.iid (moved inst);
          },
        )
  unfolding accept_valued clear
  accept_valued_lem p inst old v there free room chosen =
      rw
        (
          Chosen-has_pointer inst v chosen,
          there,
          free,
          room,
          to_accept-Chosen p.id (moved inst) v chosen,
        )
        refl
