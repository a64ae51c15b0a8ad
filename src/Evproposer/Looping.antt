-- ===== src/Evproposer/Looping.antt =====
-- The loop of `try_accept` of evpaxos/evproposer.c: it ends, and sends in the order of the instances.
use sciascid_libpaxos_d255f.Base.{
  ℕ, zero, suc, ◌<◌, ◌≡◌, refl, sym, ap, ◌∙◌, subst, inl, inr, Option, some, List, [], ◌∷◌, length,
  arith,
}
use sciascid_libpaxos_d255f.Types.{Value, Accept}
use sciascid_libpaxos_d255f.Carray.Window.{contents}
use sciascid_libpaxos_d255f.KHash.{KHash, IsTable}
use sciascid_libpaxos_d255f.KHash.Held.{
  held_keys, held_keys-le_length, held_keys-less, Fewer-but, Covers, Covers-Fewer, Covers-keys,
}
use sciascid_libpaxos_d255f.Proposer.{Instance, Proposer}
use sciascid_libpaxos_d255f.Proposer.Accepts.{accept}
use sciascid_libpaxos_d255f.Proposer.Accepting.{IsReady, Least, Proposed, accept_lem}
use sciascid_libpaxos_d255f.Proposer.Proposing.{moved}
use sciascid_libpaxos_d255f.Evproposer.{accept_each}
use sciascid_libpaxos_d255f.Evproposer.Requests.{
  Roomy, Proposed-IsReady, Stuck, Sent, AllRequests-Fewer, Above-Least, IsRequest-sent, AllRequests,
  Kept-sent,
}

module _ (table : KHash Instance) (ok : IsTable table) (junk : Value) where
  -- A result of the loop.
  abbrev Runs : ℕ → Proposer table junk → Type 0
  Runs n p =
      (rs : List Accept) × (p' : Proposer table junk) × (accept_each table junk n p ≡ some (rs, p'))
      × Sent table ok junk p rs p'

  Sent-none :
      (p p' : Proposer table junk)
      → IsReady table ok junk p'
      → Stuck table ok junk p'
      → ((k : ℕ) → table.get p'.prepare_instances k ≡ table.get p.prepare_instances k)
      → p'.accept_instances ≡ p.accept_instances
      → p'.values ≡ p.values
      → Sent table ok junk p [] p'
  Sent-none p p' r s same acc vals = record {
    ready = r;
    in_order = tt;
    requested = ap (contents junk) vals;
    stuck = s;
    kept = λ k. inl (same k, ap (λ t. table.get t k) acc);
  }

  -- The smallest pending instance stays so where the table holds the same.
  Least-same :
      (p p' : Proposer table junk) (inst : Instance)
      → ((k : ℕ) → table.get p'.prepare_instances k ≡ table.get p.prepare_instances k)
      → Least table ok junk p inst
      → Least table ok junk p' inst
  Least-same p p' inst same l = record {
    pending = same inst.iid ∙ l.pending;
    least = λ k j e. l.least k j (sym (same k) ∙ e);
  }

  step :
      (n : ℕ) (ks : List ℕ) (p p₁ : Proposer table junk) (out : Option Accept)
      → ((p₂ : Proposer table junk)
          → IsReady table ok junk p₂
          → Covers ks (table.get p₂.prepare_instances)
          → held_keys (table.get p₂.prepare_instances) ks < n
          → Runs n p₂)
      → IsReady table ok junk p
      → IsReady table ok junk p₁
      → Covers ks (table.get p.prepare_instances)
      → held_keys (table.get p.prepare_instances) ks < suc n
      → accept table junk p ≡ some (out, p₁)
      → Proposed table ok junk p out p₁
      → Runs (suc n) p
  unfolding accept_each
  step n ks p p₁ out again r r₁ cov few run (Proposed.nothing all o same) = (
    [],
    p₁,
    rw (run, o) refl,
    Sent-none p p₁ r₁ (inl (λ k. ap (λ x. table.get x.prepare_instances k) same ∙ all k))
        (λ k. ap (λ x. table.get x.prepare_instances k) same) (ap (λ x. x.accept_instances) same)
        (ap (λ x. x.values) same),
  )
  step n ks p p₁ out again r r₁ cov few run (Proposed.waits inst l less o same) =
      let keep =
        λ (k : ℕ). ap (λ (x : Proposer table junk). table.get x.prepare_instances k) same in
      (
        [],
        p₁,
        rw (run, o) refl,
        Sent-none p p₁ r₁ (inr (inst, Least-same p p₁ inst keep l, inl less)) keep
            (ap (λ (x : Proposer table junk). x.accept_instances) same)
            (ap (λ (x : Proposer table junk). x.values) same),
      )
  step n ks p p₁ out again r r₁ cov few run (Proposed.valueless inst l e₁ e₂ nil o acc keep vals) =
      (
        [],
        p₁,
        rw (run, o) refl,
        Sent-none p p₁ r₁
            (inr (inst, Least-same p p₁ inst keep l, inr (e₁, e₂, ap (contents junk) vals ∙ nil)))
            keep acc vals,
      )
  step n ks p p₁ out again r r₁ cov few run
        (Proposed.sends inst q w v l maj g c o gone there vals others) =
      let less =
        Fewer-but (table.get p.prepare_instances) (table.get p₁.prepare_instances) inst.iid gone
          (λ k ne. (others k ne).0) in
      let (rs, p₂, rest, s) =
        again p₁ r₁
          (Covers-Fewer ks (table.get p.prepare_instances) (table.get p₁.prepare_instances) less
            cov)
          (omega (
            arith,
            few,
            held_keys-less (table.get p.prepare_instances) (table.get p₁.prepare_instances) inst.iid
                inst ks less l.pending gone (cov inst.iid inst l.pending),
          )) in
      (
        request ∷ rs,
        p₂,
        rw (run, o, rest) refl,
        record {
          ready = s.ready;
          in_order =
              Above-Least table ok junk p p₁ inst rs (contents junk p₁.values)
                (contents junk p₂.values) r l gone less s.requested s.in_order;
          requested = (
            contents junk q,
            IsRequest-sent table ok junk p inst q w v l maj g c,
            AllRequests-Fewer table ok junk p p₁ rs (contents junk q) (contents junk p₂.values) less
                (subst
                  (λ x. AllRequests table ok junk p₁ rs (contents junk x) (contents junk p₂.values))
                  vals s.requested),
          );
          stuck = s.stuck;
          kept =
              Kept-sent table ok junk p p₁ p₂ request rs
                (moved table ok junk (record inst { value = w })) gone there others s.kept;
        },
      )
    where
      request : Accept
      request = record { src = p.id; iid = inst.iid; ballot = inst.ballot; value = v }

  loop :
      (n : ℕ) (ks : List ℕ) (p : Proposer table junk)
      → Roomy table ok junk
      → IsReady table ok junk p
      → Covers ks (table.get p.prepare_instances)
      → held_keys (table.get p.prepare_instances) ks < n
      → Runs n p
  loop zero ks p roomy r cov few = absurd (omega arith)
  loop (suc n) ks p roomy r cov few =
      let (out, p₁, run, d) = accept_lem table ok junk p r in
      step n ks p p₁ out (λ p₂ r₂ c₂ f₂. loop n ks p₂ roomy r₂ c₂ f₂) r
        (Proposed-IsReady table ok junk p p₁ out roomy r d) cov few run d

  -- The loop of `try_accept`, on a proposer that is ready and with tables that have memory, ends
  -- after at most one call more than the first table has keys, and never faults. It sends accept
  -- requests in the order of their instances, each for an instance that a majority of the acceptors
  -- has promised, with the promised value if there is one and else the client's: that of the instance,
  -- or the oldest of the queue, which an instance without a value takes. It moves the instances of
  -- its requests to the second table and leaves all others, in both tables, as they were. It stops
  -- when nothing is pending, or the pending instance with the smallest id has no majority or no value
  -- is left for it. It leaves the proposer ready.
  pub accept_each_lem :
      (n : ℕ) (p : Proposer table junk)
      → Roomy table ok junk
      → IsReady table ok junk p
      → length (table.keys p.prepare_instances) < n
      → (rs : List Accept) × (p' : Proposer table junk) × (accept_each table junk n p
          ≡ some (rs, p'))
        × Sent table ok junk p rs p'
  accept_each_lem n p roomy r few =
      loop n (table.keys p.prepare_instances) p roomy r (Covers-keys table ok p.prepare_instances) (
        omega (
          arith,
          few,
          held_keys-le_length (table.get p.prepare_instances) (table.keys p.prepare_instances),
        ))
