-- ===== src/Proposer/Counting.antt =====
-- One promise in `proposer_receive_promise` of paxos/proposer.c: what it adds to the instance.
use sciascid_libpaxos_d255f.Base.{
  ℕ, ◌+◌, ◌≤◌, ◌<◌, ◌≡◌, refl, sym, ap, ◌∙◌, ◌⊎◌, inl, inr, Bool, Option, some, List, ltb,
  Bool-cases, some_inj, subst, arith,
}
use sciascid_libpaxos_d255f.Types.{Value, Accepted}
use sciascid_libpaxos_d255f.Accepted.{read_ptr, read_n-length, WholeValue}
use sciascid_libpaxos_d255f.Quorum.{Quorum}
use sciascid_libpaxos_d255f.Quorum.Marks.{Added, Marked, add_lem}
use sciascid_libpaxos_d255f.Quorum.Marks
use sciascid_libpaxos_d255f.Proposer.{Instance, at, value_new, keep_value}

value_new-whole : (v : Value) → 0 < v.len → WholeValue v → value_new v.val v.len ≡ some v
unfolding value_new read_ptr
value_new-whole v pos (inl z) = absurd (omega arith)
value_new-whole v pos (inr (bs, e, l)) = rw (e, read_n-length v.len bs l) refl

-- What is known of the entry `i` of a promise: the acceptor is one of `n`, and the ballot is not
-- larger than `b`.
pub record Entry (ack : Accepted) (n b i : ℕ) : Type 0 where
  pub ballot : ℕ
  pub aid : ℕ
  pub value : Value
  pub value_ballot : ℕ
  pub ballot_at : at ack.ballots i ≡ some ballot
  pub aid_at : at ack.aids i ≡ some aid
  pub value_at : at ack.values i ≡ some value
  pub value_ballot_at : at ack.value_ballots i ≡ some value_ballot
  pub no_preemption : ballot ≤ b
  pub known : aid < n
  pub whole : WholeValue value

-- The entry `i` promises the ballot `b` and reports that the acceptor has accepted `v` with the
-- ballot `vb`.
pub record Reports (ack : Accepted) (b i : ℕ) (v : Value) (vb : ℕ) : Type 0 where
  pub ballot_at : at ack.ballots i ≡ some b
  pub value_at : at ack.values i ≡ some v
  pub value_ballot_at : at ack.value_ballots i ≡ some vb
  pub some_bytes : 0 < v.len

-- The instance behind the entries from `i` to `j`: the promised value is, of those reported and the
-- one before, that of the largest ballot.
pub record Best (ack : Accepted) (i j : ℕ) (inst inst' : Instance) : Type 0 where
  pub valid : Marks.IsValid inst'.quorum
  pub same_acceptors : inst'.quorum.acceptors ≡ inst.quorum.acceptors
  pub same_ballot : inst'.ballot ≡ inst.ballot
  pub same_iid : inst'.iid ≡ inst.iid
  pub same_value : inst'.value ≡ inst.value
  pub grows : inst.value_ballot ≤ inst'.value_ballot
  pub largest :
      (x : ℕ) (v : Value) (vb : ℕ)
      → i ≤ x
      → x < j
      → Reports ack inst.ballot x v vb
      → vb ≤ inst'.value_ballot
  pub source :
      ((inst'.value_ballot ≡ inst.value_ballot) × (inst'.promised_value ≡ inst.promised_value))
      ⊎ ((x : ℕ) × (v : Value) × Reports ack inst.ballot x v inst'.value_ballot
          × (inst'.promised_value ≡ some v))

-- What `keep_value` leaves.
pub record Kept (inst : Instance) (v : Value) (b : ℕ) (inst' : Instance) : Type 0 where
  pub same_quorum : inst'.quorum ≡ inst.quorum
  pub same_ballot : inst'.ballot ≡ inst.ballot
  pub same_iid : inst'.iid ≡ inst.iid
  pub same_value : inst'.value ≡ inst.value
  pub grows : inst.value_ballot ≤ inst'.value_ballot
  pub largest : 0 < v.len → b ≤ inst'.value_ballot
  pub source :
      ((inst'.value_ballot ≡ inst.value_ballot) × (inst'.promised_value ≡ inst.promised_value))
      ⊎ ((0 < v.len) × (inst'.value_ballot ≡ b) × (inst'.promised_value ≡ some v))

Kept-same :
    (inst : Instance) (v : Value) (b : ℕ) → (0 < v.len → b ≤ inst.value_ballot) → Kept inst v b inst
Kept-same inst v b h = record {
  same_quorum = refl;
  same_ballot = refl;
  same_iid = refl;
  same_value = refl;
  grows = omega arith;
  largest = h;
  source = inl (refl, refl);
}

pub keep_value_lem :
    (inst : Instance) (v : Value) (b : ℕ)
    → WholeValue v
    → (inst' : Instance) × (keep_value inst v b ≡ some inst') × Kept inst v b inst'
unfolding keep_value
keep_value_lem inst v b w = elim (Bool-cases (ltb 0 v.len)) [
  | inr empty ↦ (inst, rw empty refl, Kept-same inst v b (λ h. absurd (ground arith)))
  | inl bytes ↦ elim (Bool-cases (ltb inst.value_ballot b)) [
    | inr small ↦ (inst, rw (bytes, small) refl, Kept-same inst v b (λ h. ground arith))
    | inl large ↦ (
      record inst { value_ballot = b; promised_value = some v },
      rw (bytes, large, value_new-whole v (ground arith) w) refl,
      record {
        same_quorum = refl;
        same_ballot = refl;
        same_iid = refl;
        same_value = refl;
        grows = ground arith;
        largest = λ _. omega arith;
        source = inr (ground arith, refl, refl);
      },
    )
  ]
]

-- One round over an entry that does not preempt.
pub Best-old :
    (ack : Accepted) (i n : ℕ) (inst : Instance)
    → Marks.IsValid inst.quorum
    → (e : Entry ack n inst.ballot i) → e.ballot < inst.ballot
    → Best ack i (i + 1) inst inst
Best-old ack i n inst w e old = record {
  valid = w;
  same_acceptors = refl;
  same_ballot = refl;
  same_iid = refl;
  same_value = refl;
  grows = omega arith;
  largest = λ x v vb le lt r. absurd (differ x (omega arith) (r.ballot_at));
  source = inl (refl, refl);
}
  where
    differ : (x : ℕ) → x ≡ i → at ack.ballots x ≡ some inst.ballot → ⊥
    differ x same r =
        omega (arith, old, some_inj (sym e.ballot_at ∙ ap (at ack.ballots) (sym same) ∙ r))

-- Two readings of an array at the same index.
pub at_same :
    {A : Type 0} (p : Option (List A)) (x i : ℕ) (a b : A)
    → x ≡ i
    → at p x ≡ some a
    → at p i ≡ some b
    → a ≡ b
at_same p x i a b same ea eb = some_inj (sym ea ∙ ap (at p) same ∙ eb)

pub Best-counted :
    (ack : Accepted) (i n vb : ℕ) (inst inst' : Instance) (fresh : Bool) (q : Quorum)
    → (e : Entry ack n inst.ballot i) → e.ballot ≡ inst.ballot
    → Added inst.quorum e.aid fresh q
    → (0 < e.value.len → vb ≡ e.value_ballot)
    → Kept (record inst { quorum = q }) e.value vb inst'
    → Best ack i (i + 1) inst inst'
Best-counted ack i n vb inst inst' fresh q e same a bb k = record {
  valid = subst Marks.IsValid (sym k.same_quorum) a.valid;
  same_acceptors = ap (λ r. r.acceptors) k.same_quorum ∙ a.same_acceptors;
  same_ballot = k.same_ballot;
  same_iid = k.same_iid;
  same_value = k.same_value;
  grows = k.grows;
  largest = λ x v wb le lt r.
      let here : x ≡ i = omega (arith, le, lt) in
      let pos : 0 < e.value.len =
        subst (λ (w : Value). 0 < w.len)
          (at_same ack.values x i v e.value here r.value_at e.value_at) r.some_bytes in
      omega (
        arith,
        at_same ack.value_ballots x i wb e.value_ballot here r.value_ballot_at e.value_ballot_at,
        bb pos,
        k.largest pos,
      );
  source = elim k.source [
    | inl kept ↦ inl kept
    | inr (pos, is, promised) ↦ inr (
      i,
      e.value,
      record {
        ballot_at = e.ballot_at ∙ ap some same;
        value_at = e.value_at;
        value_ballot_at = e.value_ballot_at ∙ ap some (sym (is ∙ bb pos));
        some_bytes = pos;
      },
      promised,
    )
  ];
}
