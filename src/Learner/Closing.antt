-- ===== src/Learner/Closing.antt =====
-- When `instance_has_quorum` of paxos/learner.c closes an instance.
use sciascid_libpaxos_d255f.Base.{
  ℕ, ◌+◌, ◌≤◌, ◌<◌, ◌≡◌, refl, ap, ◌∙◌, ◌⊎◌, inl, inr, Bool, true, false, Option, none, some,
  length, leb, ◌>>=◌, Bool-cases, Option-cases, ◌↔◌, subst, some_inj, arith,
}
use sciascid_libpaxos_d255f.Types.{paxos_quorum}
use sciascid_libpaxos_d255f.Learner.{Instance, tally, close, has_quorum}
use sciascid_libpaxos_d255f.Learner.Votes.{votes, AllAcks, Agrees, Found, tally_lem}

-- The state of an instance `k` with `n` acceptors: it is closed only by a majority that agrees with
-- the record of its final value.
pub record IsSound (n k : ℕ) (inst : Instance) : Type 0 where
  pub sized : length inst.acks ≡ n
  pub whole : AllAcks k 0 inst.acks
  pub named : (inst.iid ≡ k) ⊎ ((inst.iid ≡ 0) × (inst.final_value ≡ none))
  pub final_agrees :
      (i : ℕ)
      → inst.final_value ≡ some i
      → Agrees inst.last_update_ballot inst.acks i
        × (paxos_quorum n ≤ votes inst.last_update_ballot inst.acks)

-- What `instance_has_quorum` has answered and done.
pub record Checked (n k : ℕ) (inst : Instance) (closed : Bool) (inst' : Instance) : Type 0 where
  pub sound : IsSound n k inst'
  pub same_iid : inst'.iid ≡ inst.iid
  pub same_ballot : inst'.last_update_ballot ≡ inst.last_update_ballot
  pub same_acks : inst'.acks ≡ inst.acks
  pub closed_final : closed ≡ true → (i : ℕ) × (inst'.final_value ≡ some i)
  pub open_final : closed ≡ false → (inst.final_value ≡ none) × (inst'.final_value ≡ none)
  pub open_same : closed ≡ false → inst' ≡ inst
  pub final_kept : (i : ℕ) → inst.final_value ≡ some i → inst' ≡ inst
  pub majority : (closed ≡ true) ↔ (paxos_quorum n ≤ votes inst.last_update_ballot inst.acks)

quorum_pos : (n : ℕ) → 0 < paxos_quorum n
unfolding paxos_quorum
quorum_pos n = omega arith

Checked-closed :
    (n k : ℕ) (inst : Instance) (i : ℕ)
    → IsSound n k inst
    → inst.final_value ≡ some i
    → Checked n k inst true inst
Checked-closed n k inst i w e = record {
  sound = w;
  same_iid = refl;
  same_ballot = refl;
  same_acks = refl;
  closed_final = λ _. (i, e);
  open_final = λ h. absurd (cc);
  open_same = λ h. absurd (cc);
  final_kept = λ j h. refl;
  majority = (λ _. (w.final_agrees i e).1, λ _. refl);
}

-- The instance has just got its final value, at index `i`.
Checked-now :
    (n k : ℕ) (inst : Instance) (i : ℕ)
    → IsSound n k inst
    → inst.final_value ≡ none
    → inst.iid ≡ k
    → Agrees inst.last_update_ballot inst.acks i
    → paxos_quorum n ≤ votes inst.last_update_ballot inst.acks
    → Checked n k inst true (record inst { final_value = some i })
Checked-now n k inst i w e at g q = record {
  sound = record {
    sized = w.sized;
    whole = w.whole;
    named = inl at;
    final_agrees = λ j h. (subst (Agrees inst.last_update_ballot inst.acks) (some_inj h) g, q);
  };
  same_iid = refl;
  same_ballot = refl;
  same_acks = refl;
  closed_final = λ _. (i, refl);
  open_final = λ h. absurd (cc);
  open_same = λ h. absurd (cc);
  final_kept = λ j h. absurd (cc);
  majority = (λ _. q, λ _. refl);
}

Checked-open :
    (n k : ℕ) (inst : Instance)
    → IsSound n k inst
    → inst.final_value ≡ none
    → votes inst.last_update_ballot inst.acks < paxos_quorum n
    → Checked n k inst false inst
Checked-open n k inst w e few = record {
  sound = w;
  same_iid = refl;
  same_ballot = refl;
  same_acks = refl;
  closed_final = λ h. absurd (cc);
  open_final = λ _. (e, e);
  open_same = λ _. refl;
  final_kept = λ j h. refl;
  majority = (λ h. absurd (cc), λ q. absurd (omega arith));
}

close_lem :
    (n k : ℕ) (inst : Instance) (v : Option ℕ)
    → IsSound n k inst
    → inst.final_value ≡ none
    → inst.iid ≡ k
    → Found inst.last_update_ballot 0 inst.acks none v
    → (closed : Bool) × (inst' : Instance) × (close inst n
          (0 + votes inst.last_update_ballot inst.acks, v)
        ≡ some (closed, inst'))
      × Checked n k inst closed inst'
unfolding close
close_lem n k inst v w e at (inl (ev, z)) = (
  false,
  inst,
  ground (arith, quorum_pos n, z),
  Checked-open n k inst w e (omega (arith, quorum_pos n, z)),
)
close_lem n k inst v w e at (inr (j, ev, g)) =
    elim (Bool-cases (leb (paxos_quorum n) (0 + votes inst.last_update_ballot inst.acks))) [
      | inl q ↦ (
        true,
        record inst { final_value = some j },
        rw (q, ev) (ap (λ i. some (true, record inst { final_value = some i })) (omega arith)),
        Checked-now n k inst j w e at g (ground arith),
      )
      | inr few ↦ (false, inst, rw few, Checked-open n k inst w e (ground arith))
    ]

has_quorum-some :
    (n : ℕ) (inst : Instance) (i : ℕ)
    → inst.final_value ≡ some i
    → has_quorum inst n ≡ some (true, inst)
unfolding has_quorum
has_quorum-some n inst i e = ground arith

has_quorum-none :
    (n : ℕ) (inst : Instance) (counted : ℕ × Option ℕ)
    → inst.final_value ≡ none
    → tally inst.last_update_ballot n 0 inst.acks 0 none ≡ some counted
    → has_quorum inst n ≡ close inst n counted
unfolding has_quorum
has_quorum-none n inst counted e run =
    ap
      (λ (f : Option ℕ). elim f [
        | some i ↦ some (true, inst)
        | none ↦ (do c ← tally inst.last_update_ballot n 0 inst.acks 0 none; close inst n c)
      ])
      e
    ∙ ap (λ (o : Option (ℕ × Option ℕ)). o >>= close inst n) run

-- `instance_has_quorum` of an instance that has had a message never faults. It answers 1 exactly
-- if more than half of the acceptors have last accepted with the ballot of the last update, then
-- sets the final value to the record of one of them, and never changes a final value that is set.
pub has_quorum_lem :
    (n k : ℕ) (inst : Instance)
    → IsSound n k inst
    → inst.iid ≡ k
    → (closed : Bool) × (inst' : Instance) × (has_quorum inst n ≡ some (closed, inst'))
      × Checked n k inst closed inst'
has_quorum_lem n k inst w at = elim (Option-cases inst.final_value) [
  | inr (i, e) ↦ (true, inst, has_quorum-some n inst i e, Checked-closed n k inst i w e)
  | inl e ↦
      let (v, run, found) =
        tally_lem inst.last_update_ballot n 0 k inst.acks 0 none w.sized w.whole in
      let (closed, inst', done, checked) = close_lem n k inst v w e at found in
      (closed, inst', has_quorum-none n inst _ e run ∙ done, checked)
]
