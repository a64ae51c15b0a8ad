-- ===== src/Proposer/Promising.antt =====
-- `proposer_receive_promise` of paxos/proposer.c keeps the value of the largest ballot.
use native.Mathlib.Decide.{dec_lt}
use sciascid_libpaxos_d255f.Base.{
  ℕ, zero, suc, ◌+◌, ◌≤◌, ◌<◌, ◌≡◌, refl, sym, ◌∙◌, inl, inr, true, false, Option, some, ltb,
  if◌then◌else◌, Bool-cases, subst, arith,
}
use sciascid_libpaxos_d255f.Types.{Value, Prepare, Accepted}
use sciascid_libpaxos_d255f.Quorum.Marks.{Added, Marked, add_lem}
use sciascid_libpaxos_d255f.Quorum.Marks
use sciascid_libpaxos_d255f.Proposer.{
  Instance, Timeval, at, count_promise, promise_round, promise_rounds,
}
use sciascid_libpaxos_d255f.Proposer.Counting.{
  Entry, Reports, Best, keep_value_lem, Best-old, Best-counted,
}

count_promise_lem :
    (ack : Accepted) (i n vb : ℕ) (inst : Instance)
    → Marks.IsValid inst.quorum
    → (e : Entry ack n inst.ballot i) → e.ballot ≡ inst.ballot
    → n ≡ inst.quorum.acceptors
    → (0 < e.value.len → vb ≡ e.value_ballot)
    → (inst' : Instance) × (count_promise inst e.aid e.value vb ≡ some inst')
      × Best ack i (i + 1) inst inst'
unfolding count_promise
count_promise_lem ack i n vb inst w e same sized bb =
    let (fresh, q, run, a) = add_lem inst.quorum e.aid w (omega (arith, sized, e.known)) in
    let (inst', run', k) = keep_value_lem (record inst { quorum = q }) e.value vb e.whole in
    (inst', rw run run', Best-counted ack i n vb inst inst' fresh q e same a bb k)

promise_round-old :
    (id : ℕ) (clock : ℕ → Timeval) (ack : Accepted) (i n : ℕ) (inst : Instance)
    (out : Option Prepare) (e : Entry ack n inst.ballot i)
    → ltb e.ballot inst.ballot ≡ true
    → promise_round id clock ack i (inst, out) ≡ some (inst, out)
unfolding promise_round
promise_round-old id clock ack i n inst out e old = rw (e.ballot_at, old) refl

promise_round-same :
    (id : ℕ) (clock : ℕ → Timeval) (ack : Accepted) (i n vb : ℕ) (inst inst' : Instance)
    (out : Option Prepare) (e : Entry ack n inst.ballot i)
    → ltb e.ballot inst.ballot ≡ false
    → (if ltb 0 e.value.len then at ack.value_ballots i else some 0) ≡ some vb
    → count_promise inst e.aid e.value vb ≡ some inst'
    → promise_round id clock ack i (inst, out) ≡ some (inst', out)
unfolding promise_round
promise_round-same id clock ack i n vb inst inst' out e new eb run =
    rw (e.ballot_at, new, not_above, e.aid_at, e.value_at, eb, run) refl
  where
    not_above : ltb inst.ballot e.ballot ≡ false
    not_above = ground (arith, e.no_preemption)

promise_round_lem :
    (id : ℕ) (clock : ℕ → Timeval) (ack : Accepted) (i n : ℕ) (inst : Instance)
    (out : Option Prepare)
    → Marks.IsValid inst.quorum
    → n ≡ inst.quorum.acceptors
    → Entry ack n inst.ballot i
    → (inst' : Instance) × (promise_round id clock ack i (inst, out) ≡ some (inst', out))
      × Best ack i (i + 1) inst inst'
promise_round_lem id clock ack i n inst out w sized e =
    elim (Bool-cases (ltb e.ballot inst.ballot)) [
      | inl old ↦ (
        inst,
        promise_round-old id clock ack i n inst out e old,
        Best-old ack i n inst w e (ground arith),
      )
      | inr new ↦ elim (Bool-cases (ltb 0 e.value.len)) [
        | inl bytes ↦
            let (inst', run, best) =
              count_promise_lem ack i n e.value_ballot inst w e (same new) sized (λ _. refl) in
            (
              inst',
              promise_round-same id clock ack i n e.value_ballot inst inst' out e new
                  (rw bytes e.value_ballot_at) run,
              best,
            )
        | inr empty ↦
            let (inst', run, best) =
              count_promise_lem ack i n 0 inst w e (same new) sized (λ h. absurd (ground arith)) in
            (
              inst',
              promise_round-same id clock ack i n 0 inst inst' out e new (rw empty refl) run,
              best,
            )
      ]
    ]
  where
    same : ltb e.ballot inst.ballot ≡ false → e.ballot ≡ inst.ballot
    same new = ground (arith, e.no_preemption)

-- Rounds one after the other.
Best-then :
    (ack : Accepted) (i j : ℕ) (inst mid inst' : Instance)
    → Best ack i (i + 1) inst mid
    → Best ack (i + 1) j mid inst'
    → Best ack i j inst inst'
Best-then ack i j inst mid inst' f g = record {
  valid = g.valid;
  same_acceptors = g.same_acceptors ∙ f.same_acceptors;
  same_ballot = g.same_ballot ∙ f.same_ballot;
  same_iid = g.same_iid ∙ f.same_iid;
  same_value = g.same_value ∙ f.same_value;
  grows = omega (arith, f.grows, g.grows);
  largest = λ x v vb le lt r. elim (dec_lt x (i + 1)) [
    | yes here ↦ omega (arith, f.largest x v vb le here r, g.grows)
    | no later ↦ g.largest x v vb (omega arith) lt (Reports-same x v vb (sym f.same_ballot) r)
  ];
  source = elim g.source [
    | inr (x, v, r, promised) ↦
        inr (x, v, Reports-same x v inst'.value_ballot f.same_ballot r, promised)
    | inl (vb_same, p_same) ↦ elim f.source [
      | inl (vb_same', p_same') ↦ inl (vb_same ∙ vb_same', p_same ∙ p_same')
      | inr (x, v, r, promised) ↦
          inr (x, v, subst (Reports ack inst.ballot x v) (sym vb_same) r, p_same ∙ promised)
    ]
  ];
}
  where
    Reports-same :
        {b c : ℕ} (x : ℕ) (v : Value) (vb : ℕ) → b ≡ c → Reports ack b x v vb → Reports ack c x v vb
    Reports-same x v vb same r = subst (λ b. Reports ack b x v vb) same r

pub promise_rounds_lem :
    (id : ℕ) (clock : ℕ → Timeval) (ack : Accepted) (i k n : ℕ) (inst : Instance)
    (out : Option Prepare)
    → Marks.IsValid inst.quorum
    → n ≡ inst.quorum.acceptors
    → ((x : ℕ) → i ≤ x → x < i + k → Entry ack n inst.ballot x)
    → (inst' : Instance) × (promise_rounds id clock ack i k (inst, out) ≡ some (inst', out))
      × Best ack i (i + k) inst inst'
unfolding promise_rounds
promise_rounds_lem id clock ack i zero n inst out w sized es = (
  inst,
  refl,
  record {
    valid = w;
    same_acceptors = refl;
    same_ballot = refl;
    same_iid = refl;
    same_value = refl;
    grows = omega arith;
    largest = λ x v vb le lt r. absurd (omega arith);
    source = inl (refl, refl);
  },
)
promise_rounds_lem id clock ack i (suc k) n inst out w sized es =
    let (mid, run, f) =
      promise_round_lem id clock ack i n inst out w sized (es i (omega arith) (omega arith)) in
    let (inst', run', g) =
      promise_rounds_lem id clock ack (i + 1) k n mid out f.valid (sized ∙ sym f.same_acceptors)
        (λ x le lt.
          subst (λ b. Entry ack n b x) (sym f.same_ballot) (es x (omega arith) (omega arith))) in
    (
      inst',
      rw run run',
      Best-then ack i (i + suc k) inst mid inst' f
          (subst (λ j. Best ack (i + 1) j mid inst') (omega arith) g),
    )
