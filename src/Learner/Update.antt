-- ===== src/Learner/Update.antt =====
-- `instance_update` of paxos/learner.c.
use sciascid_libpaxos_d255f.Base.{
  ℕ, ◌≤◌, ◌<◌, ◌≡◌, refl, sym, ap, ◌∙◌, inl, inr, Bool, true, false, Option, none, some, get_elem?,
  get_or, set, length-set, leb, if◌then◌else◌, ◌>>=◌, Bool-cases, get_elem?-eq-get_or, leb→le,
  arith,
}
use sciascid_libpaxos_d255f.Types.{Accepted}
use sciascid_libpaxos_d255f.Accepted.{first, IsWhole, ballot_of, first-ballots}
use sciascid_libpaxos_d255f.Learner.{
  Instance, add_accept, replace_older, name_instance, instance_update,
}
use sciascid_libpaxos_d255f.Learner.Closing.{IsSound, Checked, has_quorum_lem}
use sciascid_libpaxos_d255f.Learner.Copying.{Copied, accepted_dup-whole, AllAcks-set, AllAcks-at}

-- The instance after its first message: it has the id of the message.
record Named (n k : ℕ) (inst inst' : Instance) : Type 0 where
  pub sound : IsSound n k inst'
  pub iid_is : inst'.iid ≡ k
  pub same_acks : inst'.acks ≡ inst.acks
  pub same_final : inst'.final_value ≡ inst.final_value
  pub final_kept : (i : ℕ) → inst.final_value ≡ some i → inst' ≡ inst

Named-new :
    (n k : ℕ) (inst : Instance) (ack : Accepted)
    → IsSound n k inst
    → inst.final_value ≡ none
    → ack.iid ≡ k
    → Named n k inst (record inst { iid = ack.iid; last_update_ballot = ballot_of ack })
Named-new n k inst ack w e at = record {
  sound = record {
    sized = w.sized;
    whole = w.whole;
    named = inl at;
    final_agrees = λ i h. absurd (cc);
  };
  iid_is = at;
  same_acks = refl;
  same_final = refl;
  final_kept = λ i h. absurd (cc);
}

name_lem :
    (n k : ℕ) (inst : Instance) (ack : Accepted)
    → 0 < k
    → IsSound n k inst
    → IsWhole ack
    → ack.iid ≡ k
    → (inst' : Instance) × (name_instance inst ack ≡ some inst') × Named n k inst inst'
unfolding name_instance
name_lem n k inst ack pos_k w wa at = elim w.named [
  | inl e ↦ (
    inst,
    ground arith,
    record { sound = w; iid_is = e; same_acks = refl; same_final = refl; final_kept = λ i h. refl },
  )
  | inr (z, e) ↦ (
    record inst { iid = ack.iid; last_update_ballot = ballot_of ack },
    ground (arith, first-ballots ack wa),
    Named-new n k inst ack w e at,
  )
]

-- What `instance_update` has done with the message `ack` of the acceptor `j`.
pub data Effect (inst : Instance) (ack : Accepted) (j : ℕ) (inst' : Instance) : Type 0 where
  -- A majority agrees already.
  closed : (i : ℕ) → inst'.final_value ≡ some i → inst'.acks ≡ inst.acks → Effect inst ack j inst'
  -- The acceptor has accepted with a ballot that is not smaller.
  stale :
      (prev : Accepted)
      → get_elem? inst.acks j ≡ some (some prev)
      → ballot_of ack ≤ ballot_of prev
      → inst'.acks ≡ inst.acks
      → inst'.final_value ≡ none
      → Effect inst ack j inst'
  -- A copy of the message is the record of the acceptor now.
  added :
      (c : Accepted)
      → Copied ack c
      → inst'.acks ≡ set inst.acks j (some c)
      → inst'.last_update_ballot ≡ ballot_of ack
      → inst'.final_value ≡ none
      → Effect inst ack j inst'

add_accept_lem :
    (n k j : ℕ) (inst : Instance) (ack : Accepted) (prev : Option Accepted)
    → IsSound n k inst
    → inst.final_value ≡ none
    → inst.iid ≡ k
    → IsWhole ack
    → ack.iid ≡ k
    → first ack.aids ≡ some j
    → get_elem? inst.acks j ≡ some prev
    → (inst' : Instance) × (add_accept inst ack ≡ some inst')
      × IsSound n k inst'
      × (inst'.iid ≡ k)
      × Effect inst ack j inst'
unfolding add_accept
add_accept_lem n k j inst ack prev w e at wa ak aid there =
    let (c, made, copied) = accepted_dup-whole ack wa in
    (
      record inst { acks = set inst.acks j (some c); last_update_ballot = ballot_of ack },
      rw (aid, there, made, first-ballots ack wa),
      record {
        sized = length-set inst.acks j (some c) ∙ w.sized;
        whole =
            AllAcks-set k 0 j inst.acks c w.whole copied.whole (copied.same_iid ∙ ak)
              (ap first copied.same_aids ∙ aid ∙ ap some (omega arith));
        named = inl at;
        final_agrees = λ i h. absurd (cc);
      },
      at,
      Effect.added c copied refl refl e,
    )

replace_older-none :
    (inst : Instance) (ack : Accepted) → replace_older inst ack none ≡ add_accept inst ack
unfolding replace_older
replace_older-none inst ack = refl

replace_older-some :
    (inst : Instance) (ack prev : Accepted)
    → IsWhole ack
    → IsWhole prev
    → replace_older inst ack (some prev)
      ≡ (if leb (ballot_of ack) (ballot_of prev) then some inst else add_accept inst ack)
unfolding replace_older
replace_older-some inst ack prev wa wp = rw (first-ballots prev wp, first-ballots ack wa) refl

replace_older_lem :
    (n k j : ℕ) (inst : Instance) (ack : Accepted) (prev : Option Accepted)
    → IsSound n k inst
    → inst.final_value ≡ none
    → inst.iid ≡ k
    → IsWhole ack
    → ack.iid ≡ k
    → first ack.aids ≡ some j
    → get_elem? inst.acks j ≡ some prev
    → (inst' : Instance) × (replace_older inst ack prev ≡ some inst')
      × IsSound n k inst'
      × (inst'.iid ≡ k)
      × Effect inst ack j inst'
replace_older_lem n k j inst ack none w e at wa ak aid there =
    rw (replace_older-none inst ack) (add_accept_lem n k j inst ack none w e at wa ak aid there)
replace_older_lem n k j inst ack (some prev) w e at wa ak aid there =
    let (wp, _, _) = AllAcks-at k 0 j inst.acks prev w.whole there in
    elim (Bool-cases (leb (ballot_of ack) (ballot_of prev))) [
      | inl old ↦ (
        inst,
        rw (replace_older-some inst ack prev wa wp, old),
        w,
        at,
        Effect.stale prev there (leb→le (ballot_of ack) (ballot_of prev) old) refl e,
      )
      | inr new ↦
          rw (replace_older-some inst ack prev wa wp, new)
            (add_accept_lem n k j inst ack (some prev) w e at wa ak aid there)
    ]

-- The instance behind `instance_update`.
pub record Updated (n k : ℕ) (inst : Instance) (ack : Accepted) (j : ℕ) (inst' : Instance)
    : Type 0 where
  pub sound : IsSound n k inst'
  pub iid_is : inst'.iid ≡ k
  pub final_kept : (i : ℕ) → inst.final_value ≡ some i → inst' ≡ inst
  pub effect : Effect inst ack j inst'

Effect-of :
    (inst named inst' : Instance) (ack : Accepted) (j : ℕ)
    → named.acks ≡ inst.acks
    → Effect named ack j inst'
    → Effect inst ack j inst'
Effect-of inst named inst' ack j same (Effect.closed i e keep) = Effect.closed i e (keep ∙ same)
Effect-of inst named inst' ack j same (Effect.stale prev at le keep e) =
    Effect.stale prev (ap (λ l. get_elem? l j) (sym same) ∙ at) le (keep ∙ same) e
Effect-of inst named inst' ack j same (Effect.added c copied put b e) =
    Effect.added c copied (put ∙ ap (λ l. set l j (some c)) same) b e

-- `instance_update` behind its call of `instance_has_quorum`
Updated-of :
    (n k j : ℕ) (inst named checked_inst : Instance) (ack : Accepted) (closed : Bool)
    → Named n k inst named
    → Checked n k named closed checked_inst
    → j < n
    → IsWhole ack
    → ack.iid ≡ k
    → first ack.aids ≡ some j
    → (inst' : Instance) × (◌≡◌ {A = Option Instance}
        (if closed then some checked_inst else (do
          aid ← first ack.aids
          prev ← get_elem? checked_inst.acks aid
          replace_older checked_inst ack prev))
        (some inst'))
      × Updated n k inst ack j inst'
Updated-of n k j inst named inst₁ ack true nm ch lt wa ak aid =
    let (i, e) = ch.closed_final refl in
    (
      inst₁,
      refl,
      record {
        sound = ch.sound;
        iid_is = ch.same_iid ∙ nm.iid_is;
        final_kept = λ x h. ch.final_kept x (nm.same_final ∙ h) ∙ nm.final_kept x h;
        effect = Effect.closed i e (ch.same_acks ∙ nm.same_acks);
      },
    )
Updated-of n k j inst named inst₁ ack false nm ch lt wa ak aid =
    let (was, now) = ch.open_final refl in
    let there = get_elem?-eq-get_or inst₁.acks j none (omega (arith, lt, ch.sound.sized)) in
    let (inst', run, sound, iid_is, effect) =
      replace_older_lem n k j inst₁ ack (get_or inst₁.acks j none) ch.sound now
        (ch.same_iid ∙ nm.iid_is) wa ak aid there in
    (
      inst',
      rw (aid, there) run,
      record {
        sound = sound;
        iid_is = iid_is;
        final_kept = λ x h. absurd (some≢none x (sym h ∙ sym nm.same_final ∙ was));
        effect = Effect-of inst inst₁ inst' ack j (ch.same_acks ∙ nm.same_acks) effect;
      },
    )
  where
    some≢none : (x : ℕ) → ◌≡◌ {A = Option ℕ} (some x) none → ⊥
    some≢none x e = cc

pub instance_update_lem :
    (n k j : ℕ) (inst : Instance) (ack : Accepted)
    → 0 < k
    → IsSound n k inst
    → IsWhole ack
    → ack.iid ≡ k
    → first ack.aids ≡ some j
    → j < n
    → (inst' : Instance) × (instance_update inst ack n ≡ some inst') × Updated n k inst ack j inst'
unfolding instance_update
instance_update_lem n k j inst ack pos_k w wa ak aid lt =
    let (named, run, nm) = name_lem n k inst ack pos_k w wa ak in
    let (done, inst₁, run₁, ch) = has_quorum_lem n k named nm.sound nm.iid_is in
    let (inst', run₂, updated) = Updated-of n k j inst named inst₁ ack done nm ch lt wa ak aid in
    (inst', rw (run, run₁) run₂, updated)
