-- ===== src/Acceptor/Safety.antt =====
-- What an acceptor of paxos/acceptor.c keeps to through any sequence of prepare, accept and trim
-- requests.
use native.Mathlib.Decide.{dec_lt}
use sciascid_libpaxos_d255f.Base.{
  ℕ, ◌≤◌, ◌<◌, ◌≡◌, refl, sym, ◌∙◌, ◌⊎◌, inl, inr, ℤ, true, false, Option, none, some, leb, ◌==◌,
  if◌then◌else◌, Bool-cases, ==_iff, ==_refl, subst, some_inj, arith,
}
use sciascid_libpaxos_d255f.Types.{
  Accepted, Prepare, Accept, Message, Preempted, promise, preempted,
}
use sciascid_libpaxos_d255f.Accepted.{first, WholeValue, stored}
use sciascid_libpaxos_d255f.Storage.{StorageApi, IsStorage}
use sciascid_libpaxos_d255f.Acceptor.{Acceptor, Reply, prepared, receive_prepare, receive_accept}
use sciascid_libpaxos_d255f.Acceptor.Service.{receive_trim}
use sciascid_libpaxos_d255f.Acceptor.Steps.{Unchanged, Recorded, Answers, sent_or_not}
use sciascid_libpaxos_d255f.Acceptor.Accepting.{AcceptOutcome, receive_accept_lem}
use sciascid_libpaxos_d255f.Acceptor.Preparing.{PrepareOutcome, receive_prepare_lem}
use sciascid_libpaxos_d255f.Acceptor.Trimming.{Trimmed, receive_trim_lem}
use sciascid_libpaxos_d255f.Acceptor.Valid.{ballot_of, ballot_in, IsValid, record_at}

-- The ballot of a promise that is equal to another.
promised_is :
    (p q : Accepted) (b x : ℕ)
    → ◌≡◌ {A = Option Message} (some (promise p)) (some (promise q))
    → first p.ballots ≡ some b
    → first q.ballots ≡ some x
    → x ≡ b
promised_is p q b x e h hx = cc

module _ (s : StorageApi) (st : IsStorage s) where
  -- The instance is trimmed, or its record has a ballot of at least `b`.
  abbrev pub Bound : Acceptor s → ℕ → ℕ → Type 0
  Bound a k b = (k ≤ a.trim_iid) ⊎ (b ≤ ballot_in (record_at s st a k))

  -- What is known of an answer that a call gave.
  pub answer_of :
      (P : Option Message → Acceptor s → Type 0) (r : Reply s) (out : Option Message)
      (a' : Acceptor s)
      → Answers s st P r
      → r ≡ some (out, a')
      → IsValid s st a' × P out a'
  answer_of P r out a' (o, b, e, v, p) h =
      subst (λ (x : Option Message × Acceptor s). IsValid s st x.1 × P x.0 x.1)
        (some_inj (sym e ∙ h)) (v, p)

  Unchanged-Bound : {a a' : Acceptor s} (k b : ℕ) → Unchanged s st a a' → Bound a k b → Bound a' k b
  Unchanged-Bound k b u (inl h) = inl (omega (arith, u.same_trim))
  Unchanged-Bound k b u (inr h) = inr (rw (u.same_records k) h)

  Recorded-Bound :
      {a a' : Acceptor s} (k b iid : ℕ) (r : Accepted)
      → Recorded s st a iid r a'
      → ballot_in (record_at s st a iid) ≤ ballot_of r
      → Bound a k b
      → Bound a' k b
  Recorded-Bound k b iid r u le (inl h) = inl (omega (arith, u.same_trim))
  Recorded-Bound {a} k b iid r u le (inr h) =
      inr (rw (u.records k) (raised (Bool-cases (iid == k))))
    where
      raised :
          ((iid == k) ≡ true) ⊎ ((iid == k) ≡ false)
          → b ≤ ballot_in (if iid == k then some r else record_at s st a k)
      raised (inl same) = rw same (
          omega (
            arith,
            subst (λ i. ballot_in (record_at s st a i) ≤ ballot_of r) ((==_iff iid k).0 same) le,
          ))
      raised (inr other) = rw other h

  accept-Bound :
      {a a' : Acceptor s} {req : Accept} {out : Option Message} (k b : ℕ)
      → AcceptOutcome s st a req out a'
      → Bound a k b
      → Bound a' k b
  unfolding stored
  accept-Bound k b (AcceptOutcome.ignored _ _ _ _ u) h = Unchanged-Bound k b u h
  accept-Bound {a} {req = req} k b (AcceptOutcome.accepts v _ new _ fits same _ u _) h =
      Recorded-Bound k b req.iid _ u fits h
  accept-Bound k b (AcceptOutcome.preempts _ _ _ u _) h = Unchanged-Bound k b u h

  prepare-Bound :
      {isrc : ℤ} {a a' : Acceptor s} {req : Prepare} {out : Option Message} (k b : ℕ)
      → PrepareOutcome s st isrc a req out a'
      → Bound a k b
      → Bound a' k b
  unfolding stored prepared
  prepare-Bound k b (PrepareOutcome.ignored _ _ u) h = Unchanged-Bound k b u h
  prepare-Bound {req = req} k b (PrepareOutcome.prepares _ new _ fits _ u _) h =
      Recorded-Bound k b req.iid _ u fits h
  prepare-Bound k b (PrepareOutcome.keeps r vb v _ _ _ _ _ _ u _) h = Unchanged-Bound k b u h

  -- A request that the acceptor serves.
  pub data Step (a a' : Acceptor s) : Type 0 where
    prepares :
        (isrc : ℤ) (req : Prepare) (out : Option Message)
        → receive_prepare s isrc a req ≡ some (out, a')
        → Step a a'
    accepts :
        (req : Accept) (out : Option Message)
        → WholeValue req.value
        → receive_accept s a req ≡ some (out, a')
        → Step a a'
    trims : (iid : ℕ) → (receive_trim s a iid).1 ≡ a' → Step a a'

  pub data Reach (a : Acceptor s) : Acceptor s → Type 0 where
    here : Reach a a
    next : {b c : Acceptor s} → Reach a b → Step b c → Reach a c

  trim-Bound :
      (a : Acceptor s) (iid k b : ℕ)
      → IsValid s st a
      → Bound a k b
      → Bound (receive_trim s a iid).1 k b
  trim-Bound a iid k b w h = elim (Bool-cases (leb iid a.trim_iid)) [
    | inl old ↦
        Unchanged-Bound {a = a} {a' = (receive_trim s a iid).1} k b
          (record {
            same_id = t.same_id;
            same_trim = rw old at t.trim_eq;
            same_records = λ j. t.old j (ground arith);
          })
          h
    | inr new ↦ elim (dec_lt iid k) [
      | yes later ↦ elim h [
        | inl trimmed ↦ absurd (ground arith)
        | inr kept ↦ inr (rw (t.later k later) kept)
      ]
      | no before ↦ inl (ground (arith, t.trim_eq))
    ]
  ]
    where
      t : Trimmed s st a iid (receive_trim s a iid).0 (receive_trim s a iid).1
      t = receive_trim_lem s st a iid w

  Step-Bound :
      {a a' : Acceptor s} (k b : ℕ)
      → Step a a'
      → IsValid s st a
      → Bound a k b
      → IsValid s st a' × Bound a' k b
  Step-Bound {a} {a'} k b (Step.prepares isrc req out e) w h =
      let (v, p) =
        answer_of (PrepareOutcome s st isrc a req) (receive_prepare s isrc a req) out a'
          (receive_prepare_lem s st isrc a req w) e in
      (v, prepare-Bound k b p h)
  Step-Bound {a} {a'} k b (Step.accepts req out whole e) w h =
      let (v, p) =
        answer_of (AcceptOutcome s st a req) (receive_accept s a req) out a'
          (receive_accept_lem s st a req w whole) e in
      (v, accept-Bound k b p h)
  Step-Bound {a} k b (Step.trims iid e) w h =
      subst (λ c. IsValid s st c × Bound c k b) e
        ((receive_trim_lem s st a iid w).valid, trim-Bound a iid k b w h)

  -- A bound that holds is never lost.
  pub Reach-Bound :
      {a a' : Acceptor s} (k b : ℕ)
      → Reach a a'
      → IsValid s st a
      → Bound a k b
      → IsValid s st a' × Bound a' k b
  Reach-Bound k b Reach.here w h = (w, h)
  Reach-Bound k b (Reach.next r st') w h =
      let (v, h') = Reach-Bound k b r w h in Step-Bound k b st' v h'

  -- A promise is no more than what is recorded.
  promise-Bound :
      {isrc : ℤ} {a a' : Acceptor s} {req : Prepare} {p : Accepted} (b : ℕ)
      → PrepareOutcome s st isrc a req (some (promise p)) a'
      → first p.ballots ≡ some b
      → Bound a' req.iid b
  unfolding first stored prepared
  promise-Bound b (PrepareOutcome.ignored _ n u) e = absurd (cc)
  promise-Bound {isrc} {req = req} {p = p} b (PrepareOutcome.prepares h new _ fits _ u sent) e =
      elim (sent_or_not s st h _ (some (promise p)) sent) [
        | inl is ↦ inr (
            rw (u.records req.iid, ==_refl req.iid)
              (omega (arith, promised_is p _ b req.ballot is e refl)))
        | inr n ↦ absurd (cc)
      ]
  promise-Bound {a = a} {req = req} {p = p} b (PrepareOutcome.keeps r vb v new _ at gt _ _ u sent)
        e =
      elim (sent_or_not s st (s.tx_begin a.store).1 _ (some (promise p)) sent) [
        | inl is ↦ inr (
            rw (u.same_records req.iid, at)
              (omega (arith, promised_is p _ b (ballot_of r) is e refl)))
        | inr n ↦ absurd (cc)
      ]

  refuses :
      {a a' : Acceptor s} {req : Accept} {out : Option Message} (b : ℕ)
      → AcceptOutcome s st a req out a'
      → Bound a req.iid b
      → req.ballot < b
      → (out ≡ none) ⊎ ((q : Preempted) × (out ≡ some (preempted q)) × (req.ballot < q.ballot))
  refuses b (AcceptOutcome.ignored _ _ _ n _) h lt = inl n
  refuses b (AcceptOutcome.accepts v _ new _ fits _ _ _ _) h lt = absurd (omega arith)
  refuses {a} {out = out} b (AcceptOutcome.preempts new _ gt _ sent) h lt =
      elim (sent_or_not s st (s.tx_begin a.store).1 _ out sent) [
        | inl e ↦ inr (_, e, gt)
        | inr n ↦ inl n
      ]

  -- An acceptor that has promised a ballot for an instance accepts no smaller ballot for it, whatever
  -- requests it serves in between: it ignores the request or answers with a larger ballot.
  pub promise_kept :
      (isrc : ℤ) (a a₁ a₂ a₃ : Acceptor s) (req : Prepare) (p : Accepted) (b : ℕ) (req₂ : Accept)
      (out : Option Message)
      → IsValid s st a
      → receive_prepare s isrc a req ≡ some (some (promise p), a₁)
      → first p.ballots ≡ some b
      → Reach a₁ a₂
      → WholeValue req₂.value
      → req₂.iid ≡ req.iid
      → req₂.ballot < b
      → receive_accept s a₂ req₂ ≡ some (out, a₃)
      → (out ≡ none) ⊎ ((q : Preempted) × (out ≡ some (preempted q)) × (req₂.ballot < q.ballot))
  promise_kept isrc a a₁ a₂ a₃ req p b req₂ out w e₁ eb reach whole same lt e₂ =
      let (v₁, o₁) =
        answer_of (PrepareOutcome s st isrc a req) (receive_prepare s isrc a req) (some (promise p))
          a₁ (receive_prepare_lem s st isrc a req w) e₁ in
      let (v₂, bound) =
        Reach-Bound req₂.iid b reach v₁
          (subst (λ k. Bound a₁ k b) (sym same) (promise-Bound b o₁ eb)) in
      let (_, o₂) =
        answer_of (AcceptOutcome s st a₂ req₂) (receive_accept s a₂ req₂) out a₃
          (receive_accept_lem s st a₂ req₂ v₂ whole) e₂ in
      refuses b o₂ bound lt
