-- ===== src/Proposer/Accepting.antt =====
-- `proposer_accept` of paxos/proposer.c: what it proposes.
use sciascid_libpaxos_d255f.Base.{
  ℕ, ◌≤◌, ◌≡◌, ◌≢◌, refl, sym, ap, ◌∙◌, ◌⊎◌, inl, inr, true, false, not, ◌&&◌, Option, none, some,
  [], ◌∷◌, if◌then◌else◌, Bool-cases, Option-cases, arith,
}
use sciascid_libpaxos_d255f.Types.{Value, Accept}
use sciascid_libpaxos_d255f.Carray.{Carray, pop_front}
use sciascid_libpaxos_d255f.Carray.Window
use sciascid_libpaxos_d255f.Carray.Window.{contents}
use sciascid_libpaxos_d255f.Carray.Refine.{pop_front_refines}
use sciascid_libpaxos_d255f.Quorum.{reached}
use sciascid_libpaxos_d255f.KHash.{KHash, IsTable}
use sciascid_libpaxos_d255f.KHash.Changes.{del-other, del_self, put-other, put_self, put-same}
use sciascid_libpaxos_d255f.Proposer.{Instance, Proposer}
use sciascid_libpaxos_d255f.Proposer.Accepts.{
  smallest, has_pointer, accept_valued, accept_prepared, accept,
}
use sciascid_libpaxos_d255f.Proposer.Proposing.{Found, smallest_lem, moved, accept_valued_lem}

module _ (table : KHash Instance) (ok : IsTable table) (junk : Value) where
  -- Every instance stands at its id in one table at most, the table has memory, and the queue of
  -- values is valid.
  pub record IsReady (p : Proposer table junk) : Type 0 where
    pub keyed :
        (k : ℕ) (inst : Instance) → table.get p.prepare_instances k ≡ some inst → inst.iid ≡ k
    pub apart :
        (k : ℕ) (inst : Instance)
        → table.get p.prepare_instances k ≡ some inst
        → table.get p.accept_instances k ≡ none
    pub room : (k : ℕ) → table.no_memory p.accept_instances k ≡ false
    pub queue : Window.IsValid p.values

  -- The pending instance with the smallest id.
  pub record Least (p : Proposer table junk) (inst : Instance) : Type 0 where
    pub pending : table.get p.prepare_instances inst.iid ≡ some inst
    pub least : (k : ℕ) (j : Instance) → table.get p.prepare_instances k ≡ some j → inst.iid ≤ j.iid

  -- The client's value of the instance, `w`, and the queue that is left: an instance without a value
  -- takes the oldest one.
  pub data Given (p : Proposer table junk) (inst : Instance) (q : Carray Value) (w : Option Value)
      : Type 0 where
    own : (v : Value) → inst.value ≡ some v → q ≡ p.values → w ≡ some v → Given p inst q w
    taken :
        (v : Value)
        → inst.value ≡ none
        → contents junk p.values ≡ v ∷ contents junk q
        → Window.IsValid q
        → w ≡ some v
        → Given p inst q w
    empty :
        inst.value ≡ none → contents junk p.values ≡ [] → q ≡ p.values → w ≡ none → Given p inst q w

  -- What `proposer_accept` has done.
  pub data Proposed (p : Proposer table junk) (out : Option Accept) (p' : Proposer table junk)
      : Type 0 where
    nothing :
        ((k : ℕ) → table.get p.prepare_instances k ≡ none) → out ≡ none → p' ≡ p → Proposed p out p'
    waits :
        (inst : Instance)
        → Least p inst
        → reached inst.quorum ≡ false
        → out ≡ none
        → p' ≡ p
        → Proposed p out p'
    valueless :
        (inst : Instance)
        → Least p inst
        → inst.promised_value ≡ none
        → inst.value ≡ none
        → contents junk p.values ≡ []
        → out ≡ none
        → p'.accept_instances ≡ p.accept_instances
        → ((k : ℕ) → table.get p'.prepare_instances k ≡ table.get p.prepare_instances k)
        → p'.values ≡ p.values
        → Proposed p out p'
    sends :
        (inst : Instance) (q : Carray Value) (w : Option Value) (v : Value)
        → Least p inst
        → reached inst.quorum ≡ true
        → Given p inst q w
        → (inst.promised_value ≡ some v) ⊎ ((inst.promised_value ≡ none) × (w ≡ some v))
        → out ≡ some (record { src = p.id; iid = inst.iid; ballot = inst.ballot; value = v })
        → table.get p'.prepare_instances inst.iid ≡ none
        → table.get p'.accept_instances inst.iid
          ≡ some (moved table ok junk (record inst { value = w }))
        → p'.values ≡ q
        → ((k : ℕ)
            → k ≢ inst.iid
            → (table.get p'.prepare_instances k ≡ table.get p.prepare_instances k)
              × (table.get p'.accept_instances k ≡ table.get p.accept_instances k))
        → Proposed p out p'

  accept_valued-none :
      (p : Proposer table junk) (inst : Instance)
      → inst.promised_value ≡ none
      → inst.value ≡ none
      → accept_valued table junk p inst
        ≡ some (none, record p { prepare_instances = table.put p.prepare_instances inst.iid inst })
  unfolding accept_valued
  accept_valued-none p inst e₁ e₂ = rw (no_pointer inst e₁ e₂) refl
    where
      no_pointer :
          (inst : Instance)
          → inst.promised_value ≡ none
          → inst.value ≡ none
          → (not (has_pointer inst.value) && not (has_pointer inst.promised_value)) ≡ true
      no_pointer inst e₁ e₂ = ground arith

  accept_prepared-some :
      (p : Proposer table junk) (inst : Instance) (v : Value)
      → inst.value ≡ some v
      → accept_prepared table junk p inst ≡ accept_valued table junk p inst
  unfolding accept_prepared
  accept_prepared-some p inst v e = rw (has inst v e) refl
    where
      has : (inst : Instance) (v : Value) → inst.value ≡ some v → has_pointer inst.value ≡ true
      has inst v e = ground arith

  accept_prepared-none :
      (p : Proposer table junk) (inst : Instance) (w : Option Value) (q : Carray Value)
      → inst.value ≡ none
      → pop_front p.values ≡ some (w, q)
      → accept_prepared table junk p inst
        ≡ accept_valued table junk (record p { values = q }) (record inst { value = w })
  unfolding accept_prepared
  accept_prepared-none p inst w q e run = rw (hasnt inst e, run) refl
    where
      hasnt : (inst : Instance) → inst.value ≡ none → has_pointer inst.value ≡ false
      hasnt inst e = ground arith

  given_lem :
      (p : Proposer table junk) (inst : Instance)
      → IsReady p
      → (q : Carray Value) × (w : Option Value) × (accept_prepared table junk p inst
          ≡ accept_valued table junk (record p { values = q }) (record inst { value = w }))
        × Given p inst q w
  given_lem p inst r = elim (Option-cases inst.value) [
    | inr (v, e) ↦ (p.values, inst.value, accept_prepared-some p inst v e, Given.own v e refl e)
    | inl e ↦ elim (pop_front_refines junk p.values r.queue) [
      | inl (nil, run) ↦ (
        p.values,
        none,
        accept_prepared-none p inst none p.values e run,
        Given.empty e nil refl refl,
      )
      | inr (v, q, run, whole, holds) ↦ (
        q,
        some v,
        accept_prepared-none p inst (some v) q e run,
        Given.taken v e holds whole refl,
      )
    ]
  ]

  accept-found :
      (p : Proposer table junk) (o : Option Instance)
      → smallest table junk p.prepare_instances (table.keys p.prepare_instances) none ≡ o
      → accept table junk p ≡ elim o [
        | none ↦ some (none, p)
        | some inst ↦
            if reached inst.quorum then accept_prepared table junk p inst else some (none, p)
      ]
  unfolding accept
  accept-found p o e =
      ap
        (λ (o : Option Instance). elim o [
          | none ↦ some (none, p)
          | some inst ↦
              if reached inst.quorum then accept_prepared table junk p inst else some (none, p)
        ])
        e

  -- What the loop finds among all the keys.
  found_lem :
      (p : Proposer table junk) (o : Option Instance)
      → IsReady p
      → Found table ok junk p.prepare_instances (table.keys p.prepare_instances) none o
      → ((o ≡ none) × ((k : ℕ) → table.get p.prepare_instances k ≡ none))
        ⊎ ((inst : Instance) × (o ≡ some inst) × Least p inst)
  found_lem p o r (Found.nothing e _ all) = inl (e, absent)
    where
      absent : (k : ℕ) → table.get p.prepare_instances k ≡ none
      absent k = elim (Option-cases (table.get p.prepare_instances k)) [
        | inl n ↦ n
        | inr (j, e) ↦ all k ((ok.Member-keys p.prepare_instances k).1 (λ n. cc))
      ]
  found_lem p o r (Found.least inst e (inl h) _ all) = absurd (cc)
  found_lem p o r (Found.least inst e (inr (k, there)) _ all) = inr (
    inst,
    e,
    record {
      pending = ap (table.get p.prepare_instances) (r.keyed k inst there) ∙ there;
      least = λ x j g. all x j ((ok.Member-keys p.prepare_instances x).1 (λ n. cc)) g;
    },
  )

  -- An instance of the second phase with its value.
  sends_lem :
      (p : Proposer table junk) (inst : Instance) (q : Carray Value) (w : Option Value) (v : Value)
      → IsReady p
      → Least p inst
      → reached inst.quorum ≡ true
      → Given p inst q w
      → (inst.promised_value ≡ some v) ⊎ ((inst.promised_value ≡ none) × (w ≡ some v))
      → (out : Option Accept) × (p' : Proposer table junk) × (accept_valued table junk
            (record p { values = q })
            (record inst { value = w })
          ≡ some (out, p'))
        × Proposed p out p'
  sends_lem p inst q w v r l maj g c = (
    _,
    _,
    accept_valued_lem table ok junk (record p { values = q }) (record inst { value = w }) inst v
        l.pending (r.apart inst.iid inst l.pending) (r.room inst.iid) c,
    Proposed.sends inst q w v l maj g c refl (del_self table ok p.prepare_instances inst.iid)
        (put_self table ok p.accept_instances inst.iid
          (moved table ok junk (record inst { value = w })))
        refl
        (λ k ne. (
          del-other table ok p.prepare_instances inst.iid k ne,
          put-other table ok p.accept_instances inst.iid k
              (moved table ok junk (record inst { value = w })) ne,
        )),
  )

  majority_lem :
      (p : Proposer table junk) (inst : Instance)
      → IsReady p
      → Least p inst
      → reached inst.quorum ≡ true
      → (out : Option Accept) × (p' : Proposer table junk) × (accept_prepared table junk p inst
          ≡ some (out, p'))
        × Proposed p out p'
  majority_lem p inst r l maj =
      let (q, w, run, g) = given_lem p inst r in
      rw run (by_value q w g (Option-cases inst.promised_value))
    where
      by_value :
          (q : Carray Value) (w : Option Value)
          → Given p inst q w
          → (inst.promised_value ≡ none) ⊎ ((v : Value) × (inst.promised_value ≡ some v))
          → (out : Option Accept) × (p' : Proposer table junk) × (accept_valued table junk
                (record p { values = q })
                (record inst { value = w })
              ≡ some (out, p'))
            × Proposed p out p'
      by_value q w g (inr (v, e)) = sends_lem p inst q w v r l maj g (inl e)
      by_value q w (Given.own v a b c) (inl e) =
          sends_lem p inst q w v r l maj (Given.own v a b c) (inr (e, c))
      by_value q w (Given.taken v a b h c) (inl e) =
          sends_lem p inst q w v r l maj (Given.taken v a b h c) (inr (e, c))
      by_value q w (Given.empty a b c d) (inl e) = (
        none,
        _,
        accept_valued-none (record p { values = q }) (record inst { value = w }) e d,
        Proposed.valueless inst l e a b refl refl
            (λ k.
              put-same table ok p.prepare_instances inst.iid k (record inst { value = w })
                (l.pending ∙ ap (λ o. some (record inst { value = o })) (a ∙ sym d)))
            c,
      )

  -- `proposer_accept` of a proposer that is ready never faults. It looks at the pending instance with
  -- the smallest id, and sends an accept request exactly if more than half of the acceptors have
  -- promised its ballot and there is a value: the promised value if there is one, else the client's,
  -- which is the oldest of the queue if the instance had none. Then the instance is pending no more
  -- and waits, with its quorum cleared, for the second phase.
  pub accept_lem :
      (p : Proposer table junk)
      → IsReady p
      → (out : Option Accept) × (p' : Proposer table junk) × (accept table junk p ≡ some (out, p'))
        × Proposed p out p'
  accept_lem p r =
      elim (found_lem p _ r
        (smallest_lem table ok junk p.prepare_instances (table.keys p.prepare_instances) none)) [
          | inl (e, absent) ↦ (none, p, accept-found p none e, Proposed.nothing absent refl refl)
          | inr (inst, e, l) ↦
              rw (accept-found p (some inst) e) (elim (Bool-cases (reached inst.quorum)) [
                | inl maj ↦ rw maj (majority_lem p inst r l maj)
                | inr few ↦ rw few (none, p, refl, Proposed.waits inst l few refl refl)
              ])
        ]
