-- ===== src/Proposer/Promises.antt =====
-- `proposer_receive_promise` of paxos/proposer.c on a proposer.
use sciascid_libpaxos_d255f.Base.{
  ℕ, ◌<◌, ◌≡◌, ◌≢◌, refl, sym, ap, ◌∙◌, inl, inr, Option, none, some, subst, ◌==◌, ==_iff, ==_refl,
  Bool-cases, ◌>>=◌, arith,
}
use sciascid_libpaxos_d255f.Types.{Value, Prepare, Accepted}
use sciascid_libpaxos_d255f.Quorum.Marks
use sciascid_libpaxos_d255f.KHash.{KHash, IsTable}
use sciascid_libpaxos_d255f.Proposer.{Instance, Timeval, Proposer, promise_rounds, receive_promise}
use sciascid_libpaxos_d255f.Proposer.Promising.{promise_rounds_lem}
use sciascid_libpaxos_d255f.Proposer.Counting.{Entry, Best}

module _ (table : KHash Instance) (ok : IsTable table) (junk : Value) where
  -- What a promise leaves of the instances that wait for promises.
  pub record Promised (p : Proposer table junk) (ack : Accepted) (inst : Instance)
      (p' : Proposer table junk) : Type 0 where
    pub inst' : Instance
    pub best : Best ack 0 ack.n_aids inst inst'
    pub there : table.get p'.prepare_instances ack.iid ≡ some inst'
    pub others :
        (k : ℕ) → k ≢ ack.iid → table.get p'.prepare_instances k ≡ table.get p.prepare_instances k
    pub same_accepts : p'.accept_instances ≡ p.accept_instances
    pub same_values : p'.values ≡ p.values

  put-other :
      (t : table.Table) (k x : ℕ) (inst : Instance)
      → x ≢ k
      → table.get (table.put t k inst) x ≡ table.get t x
  put-other t k x inst ne = elim (Bool-cases (k == x)) [
    | inl same ↦ absurd (ne (sym ((==_iff k x).0 same)))
    | inr other ↦ ok.get-put t k x inst ∙ rw other refl
  ]

  receive_promise-some :
      (p : Proposer table junk) (clock : ℕ → Timeval) (ack : Accepted) (inst inst' : Instance)
      (out : Option Prepare)
      → table.get p.prepare_instances ack.iid ≡ some inst
      → promise_rounds p.id clock ack 0 ack.n_aids (inst, none) ≡ some (inst', out)
      → receive_promise table junk p clock ack
        ≡ some (out, record p { prepare_instances = table.put p.prepare_instances ack.iid inst' })
  unfolding receive_promise
  receive_promise-some p clock ack inst inst' out e run =
      ap
        (λ (o : Option Instance). elim o [
          | none ↦ some (none, p)
          | some inst ↦ (do
            (inst', out) ← promise_rounds p.id clock ack 0 ack.n_aids (inst, none)
            some
                (out, record p { prepare_instances = table.put p.prepare_instances ack.iid inst' }))
        ])
        e
      ∙ ap
          (λ (o : Option (Instance × Option Prepare)). do
            (inst', out) ← o
            some
                (out, record p { prepare_instances = table.put p.prepare_instances ack.iid inst' }))
          run

  -- `proposer_receive_promise` for a pending instance, with arrays as long as the message says, from
  -- known acceptors and with no ballot above the instance's, never faults and asks for no new
  -- prepare request. The promised value of the instance is then, of the one it had and those
  -- reported with the instance's ballot, that of the largest value ballot; its ballot and the
  -- client's value stay, and so do the other instances.
  pub receive_promise_lem :
      (p : Proposer table junk) (clock : ℕ → Timeval) (ack : Accepted) (inst : Instance)
      → table.get p.prepare_instances ack.iid ≡ some inst
      → Marks.IsValid inst.quorum
      → ((x : ℕ) → x < ack.n_aids → Entry ack inst.quorum.acceptors inst.ballot x)
      → (p' : Proposer table junk) × (receive_promise table junk p clock ack ≡ some (none, p'))
        × Promised p ack inst p'
  receive_promise_lem p clock ack inst e w es =
      let (inst', run, best) =
        promise_rounds_lem p.id clock ack 0 ack.n_aids inst.quorum.acceptors inst none w refl
          (λ x le lt. es x (omega arith)) in
      (
        record p { prepare_instances = table.put p.prepare_instances ack.iid inst' },
        receive_promise-some p clock ack inst inst' none e run,
        record {
          inst' = inst';
          best = subst (λ n. Best ack 0 n inst inst') (omega arith) best;
          there = ok.get-put p.prepare_instances ack.iid ack.iid inst' ∙ rw (==_refl ack.iid) refl;
          others = λ k ne. put-other p.prepare_instances ack.iid k inst' ne;
          same_accepts = refl;
          same_values = refl;
        },
      )
