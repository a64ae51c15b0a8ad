-- ===== src/Evproposer/Opening.antt =====
-- `proposer_preexecute` of evpaxos/evproposer.c: how many instances it opens, and which.
use native.Mathlib.Nat.{mod-eq_of_lt}
use sciascid_libpaxos_d255f.Base.{
  ℕ, zero, suc, ◌+◌, ◌-◌, ◌^◌, ◌≤◌, ◌<◌, ◌≡◌, ◌≢◌, refl, sym, ap, ◌∙◌, ◌⊎◌, inl, inr, true, false,
  pos, none, some, List, [], ◌∷◌, ltb, leb, ◌==◌, if◌then◌else◌, Bool-cases, ==_iff, arith,
}
use sciascid_libpaxos_d255f.Types.{Message}
use sciascid_libpaxos_d255f.KHash.{KHash, IsTable}
use sciascid_libpaxos_d255f.KHash.Changes.{put_self, put-other}
use sciascid_libpaxos_d255f.Types.{Value}
use sciascid_libpaxos_d255f.Quorum
use sciascid_libpaxos_d255f.Proposer.{Instance, Timeval, Proposer, next_ballot, prepare}
use sciascid_libpaxos_d255f.Proposer.Accepts.{no_values}
use sciascid_libpaxos_d255f.Evproposer.{
  Evproposer, missing, prepared_count, prepare_each, preexecute,
}
use sciascid_libpaxos_d255f.Evproposer.Requests.{Roomy}

-- The prepare requests of the proposer `id` for the `n` instances behind `k`.
abbrev pub asks : ℕ → ℕ → ℕ → List Message
asks id k zero = []
asks id k (suc n) =
    Message.prepare (record { src = id; iid = k + 1; ballot = next_ballot id 0 })
    ∷ asks id (k + 1) n

-- The new instance `k` of the proposer `id`.
abbrev pub opened : ℕ → ℕ → ℕ → Timeval → Instance
opened id acceptors k now = record {
  iid = k;
  ballot = next_ballot id 0;
  value = none;
  promised_value = none;
  value_ballot = 0;
  quorum = Quorum.init acceptors;
  created_at = now;
}

module _ (table : KHash Instance) (ok : IsTable table) (junk : Value) where
  -- No instance is pending behind the last one that was prepared.
  abbrev pub Below : Proposer table junk → Type 0
  Below s = (k : ℕ) → s.next_prepare_iid < k → table.get s.prepare_instances k ≡ none

  -- The proposer with the next instance open.
  abbrev pub with_next : Proposer table junk → Timeval → Proposer table junk
  with_next s now = record s {
    next_prepare_iid = s.next_prepare_iid + 1;
    prepare_instances =
        table.put s.prepare_instances (s.next_prepare_iid + 1)
          (opened s.id s.acceptors (s.next_prepare_iid + 1) now);
  }

  prepare_lem :
      (s : Proposer table junk) (now : Timeval)
      → Roomy table ok junk
      → Below s
      → s.next_prepare_iid + 1 < 2 ^ 32
      → prepare table junk s now
        ≡ some (
          record { src = s.id; iid = s.next_prepare_iid + 1; ballot = next_ballot s.id 0 },
          with_next s now,
        )
  unfolding prepare
  prepare_lem s now roomy below fits =
      rw
        (
          mod-eq_of_lt fits,
          ltb_pos (s.next_prepare_iid),
          roomy s.prepare_instances (s.next_prepare_iid + 1),
          below (s.next_prepare_iid + 1) (omega arith),
        )
        refl
    where
      ltb_pos : (n : ℕ) → ltb 0 (n + 1) ≡ true
      ltb_pos n = ground arith

  -- The proposer with `n` instances more, behind the requests for them.
  pub record Opened (n : ℕ) (s : Proposer table junk) (sent : List Message)
      (s' : Proposer table junk) : Type 0 where
    pub asked : sent ≡ asks s.id s.next_prepare_iid n
    pub next : s'.next_prepare_iid ≡ s.next_prepare_iid + n
    pub counted : prepared_count table junk s' ≡ prepared_count table junk s + n
    pub still_below : Below s'
    pub same_old :
        (k : ℕ)
        → k ≤ s.next_prepare_iid
        → table.get s'.prepare_instances k ≡ table.get s.prepare_instances k
    pub fresh :
        (k : ℕ)
        → s.next_prepare_iid < k
        → k ≤ s.next_prepare_iid + n
        → (now : Timeval) × (table.get s'.prepare_instances k
            ≡ some (opened s.id s.acceptors k now))
    pub same_accepts : s'.accept_instances ≡ s.accept_instances
    pub same_values : s'.values ≡ s.values

  Opened-none : (s : Proposer table junk) → Below s → Opened 0 s [] s
  Opened-none s below = record {
    asked = refl;
    next = omega arith;
    counted = omega arith;
    still_below = below;
    same_old = λ k h. refl;
    fresh = λ k h g. absurd (omega arith);
    same_accepts = refl;
    same_values = refl;
  }

  differ : (k n : ℕ) → n < k → k ≢ n
  differ k n h e = omega arith

  with_next-Below : (s : Proposer table junk) (now : Timeval) → Below s → Below (with_next s now)
  with_next-Below s now below k h =
      put-other table ok s.prepare_instances (s.next_prepare_iid + 1) k
        (opened s.id s.acceptors (s.next_prepare_iid + 1) now) (differ k (s.next_prepare_iid + 1) h)
      ∙ below k (omega arith)

  Opened-more :
      (n : ℕ) (s s' : Proposer table junk) (now : Timeval) (sent : List Message)
      → Below s
      → Opened n (with_next s now) sent s'
      → Opened
          (suc n)
          s
          (Message.prepare
              (record { src = s.id; iid = s.next_prepare_iid + 1; ballot = next_ballot s.id 0 })
            ∷ sent)
          s'
  unfolding prepared_count
  Opened-more n s s' now sent below o = record {
    asked =
        ap
          (λ ms.
            Message.prepare
              (record { src = s.id; iid = s.next_prepare_iid + 1; ballot = next_ballot s.id 0 })
            ∷ ms)
          o.asked;
    next = omega (arith, o.next);
    counted = omega (arith, o.counted, grown);
    still_below = o.still_below;
    same_old = λ k h.
        o.same_old k (omega arith)
        ∙ put-other table ok s.prepare_instances (s.next_prepare_iid + 1) k
            (opened s.id s.acceptors (s.next_prepare_iid + 1) now)
            (λ e. absurd (omega (arith, e, h)));
    fresh = λ k h g. by_age k h g (Bool-cases (k == s.next_prepare_iid + 1));
    same_accepts = o.same_accepts;
    same_values = o.same_values;
  }
    where
      grown : table.size (with_next s now).prepare_instances ≡ suc (table.size s.prepare_instances)
      grown =
          ok.size-put s.prepare_instances (s.next_prepare_iid + 1)
            (opened s.id s.acceptors (s.next_prepare_iid + 1) now)
            (below (s.next_prepare_iid + 1) (omega arith))

      by_age :
          (k : ℕ)
          → s.next_prepare_iid < k
          → k ≤ s.next_prepare_iid + suc n
          → ((k == s.next_prepare_iid + 1) ≡ true) ⊎ ((k == s.next_prepare_iid + 1) ≡ false)
          → (at : Timeval) × (table.get s'.prepare_instances k
              ≡ some (opened s.id s.acceptors k at))
      by_age k h g (inr later) = o.fresh k (ground arith) (omega arith)
      by_age k h g (inl first) = (
        now,
        o.same_old k (ground arith)
            ∙ ap (table.get (with_next s now).prepare_instances)
                ((==_iff k (s.next_prepare_iid + 1)).0 first)
            ∙ put_self table ok s.prepare_instances (s.next_prepare_iid + 1)
                (opened s.id s.acceptors (s.next_prepare_iid + 1) now)
            ∙ ap (λ i. some (opened s.id s.acceptors i now))
                (sym ((==_iff k (s.next_prepare_iid + 1)).0 first)),
      )

  prepare_each_lem :
      (n : ℕ) (clock : ℕ → Timeval) (i : ℕ) (s : Proposer table junk)
      → Roomy table ok junk
      → Below s
      → s.next_prepare_iid + n < 2 ^ 32
      → (sent : List Message) × (s' : Proposer table junk) × (prepare_each table junk n clock i s
          ≡ some (sent, s'))
        × Opened n s sent s'
  unfolding prepare_each
  prepare_each_lem zero clock i s roomy below fits = ([], s, refl, Opened-none s below)
  prepare_each_lem (suc n) clock i s roomy below fits =
      let (sent, s', run, o) =
        prepare_each_lem n clock (i + 1) (with_next s (clock i)) roomy
          (with_next-Below s (clock i) below) (omega (arith, fits)) in
      (
        _,
        s',
        rw (prepare_lem s (clock i) roomy below (omega (arith, fits)), run) refl,
        Opened-more n s s' (clock i) sent below o,
      )

  -- `proposer_preexecute` never faults while the ids fit into 32 bits, no instance is pending behind
  -- the last one that was prepared, and the tables have memory. If no client value waits it does
  -- nothing; else it opens the next instances, and asks the acceptors to promise the first ballot of
  -- the proposer for each, in order, until the pending instances fill the window: their count is then
  -- the window, or what it was if that is more.
  pub preexecute_lem :
      (p : Evproposer table junk) (window : ℕ) (clock : ℕ → Timeval)
      → Roomy table ok junk
      → Below p.state
      → p.preexec_window ≡ pos window
      → p.state.next_prepare_iid + window < 2 ^ 32
      → (sent : List Message) × (p' : Evproposer table junk) × (preexecute table junk p clock
          ≡ some (sent, p'))
        × (((no_values table junk p.state ≡ true) × (sent ≡ []) × (p' ≡ p))
            ⊎ ((no_values table junk p.state ≡ false)
                × Opened (window - prepared_count table junk p.state) p.state sent p'.state
                × (prepared_count table junk p'.state ≡ (
                    if leb window (prepared_count table junk p.state)
                    then prepared_count table junk p.state
                    else window))))
  unfolding preexecute missing
  preexecute_lem p window clock roomy below is fits =
      elim (Bool-cases (no_values table junk p.state)) [
        | inl e ↦ ([], p, rw e refl, inl (e, refl, refl))
        | inr e ↦
            let (sent, s', run, o) =
              prepare_each_lem (window - prepared_count table junk p.state) clock 0 p.state roomy
                below (omega (arith, fits)) in
            (
              sent,
              record p { state = s' },
              rw (e, is, run) refl,
              inr (e, o, ground (arith, o.counted)),
            )
      ]
