-- ===== src/Proposer/Timeouts.antt =====
-- paxos/proposer.c: the instances that have timed out. An iterator is the keys from its position on,
-- which the code reads while it leaves the tables' keys alone.
use sciascid_libpaxos_d255f.Base.{
  ℕ, ◌+◌, Bool, Option, none, some, List, [], ◌∷◌, leb, if◌then◌else◌, ◌>>=◌,
}
use sciascid_libpaxos_d255f.Types.{Value, Prepare, Accept}
use sciascid_libpaxos_d255f.Quorum.{reached}
use sciascid_libpaxos_d255f.KHash.{KHash}
use sciascid_libpaxos_d255f.Proposer.{Instance, Timeval, Proposer, to_prepare}
use sciascid_libpaxos_d255f.Proposer.Accepts.{to_accept}

-- `instance_has_timedout`, with `paxos_config.proposer_timeout`
unfoldable pub has_timedout : ℕ → Instance → Timeval → Bool
has_timedout timeout inst now = leb (inst.created_at.tv_sec + timeout) now.tv_sec

module _ (table : KHash Instance) (junk : Value) where
  open table use {Table}

  -- `struct timeout_iterator`, without the proposer
  pub record TimeoutIterator : Type 0 where
    pub pi : List ℕ
    pub ai : List ℕ
    pub timeout : Timeval

  -- `proposer_timeout_iterator`
  unfoldable pub timeout_iterator : Proposer table junk → Timeval → TimeoutIterator
  timeout_iterator p now = record {
    pi = table.keys p.prepare_instances;
    ai = table.keys p.accept_instances;
    timeout = now;
  }

  -- `next_timedout`; the instance that it finds stays the next one.
  unfoldable pub next_timedout : ℕ → Table → List ℕ → Timeval → Option (ℕ × Instance) × List ℕ
  unfolding has_timedout reached
  next_timedout timeout t [] now = (none, [])
  next_timedout timeout t (k ∷ ks) now =
      let rest = next_timedout timeout t ks now in
      elim (table.get t k) [
        | none ↦ rest
        | some inst ↦
            if reached inst.quorum
            then rest
            else (if has_timedout timeout inst now then (some (k, inst), k ∷ ks) else rest)
      ]

  -- `timeout_iterator_prepare`; the request is `some` where the code returns 1.
  unfoldable pub timeout_iterator_prepare :
      ℕ
      → TimeoutIterator
      → Proposer table junk
      → Option Prepare × TimeoutIterator × Proposer table junk
  unfolding next_timedout to_prepare
  timeout_iterator_prepare timeout iter p =
      let (found, left) = next_timedout timeout p.prepare_instances iter.pi iter.timeout in
      elim found [
        | none ↦ (none, record iter { pi = left }, p)
        | some (k, inst) ↦ (
          some (to_prepare p.id inst),
          record iter { pi = left },
          record p {
            prepare_instances =
                table.put p.prepare_instances k (record inst { created_at = iter.timeout });
          },
        )
      ]

  -- `timeout_iterator_accept`
  unfoldable pub timeout_iterator_accept :
      ℕ
      → TimeoutIterator
      → Proposer table junk
      → Option (Option Accept × TimeoutIterator × Proposer table junk)
  unfolding next_timedout to_accept
  timeout_iterator_accept timeout iter p =
      let (found, left) = next_timedout timeout p.accept_instances iter.ai iter.timeout in
      elim found [
        | none ↦ some (none, record iter { ai = left }, p)
        | some (k, inst) ↦ (do
          out ← to_accept p.id inst
          some (
            some out,
            record iter { ai = left },
            record p {
              accept_instances =
                  table.put p.accept_instances k (record inst { created_at = iter.timeout });
            },
          ))
      ]
