-- ===== src/Proposer/Ballots.antt =====
-- The ballots that proposers of paxos/proposer.c use.
use sciascid_libpaxos_d255f.Base.{ℕ, zero, suc, ◌+◌, ◌*◌, ◌^◌, ◌<◌, ◌≡◌, ◌≢◌, ◌∙◌, arith}
use sciascid_libpaxos_d255f.Proposer.{max_proposers, next_ballot}

-- The ballot of the proposer `id` after `n` preemptions.
unfoldable pub ballot_after : ℕ → ℕ → ℕ
unfolding next_ballot
ballot_after id zero = next_ballot id 0
ballot_after id (suc n) = next_ballot id (ballot_after id n)

next_ballot-zero : (id : ℕ) → 1000 + id < 2 ^ 32 → next_ballot id 0 ≡ 1000 + id
unfolding next_ballot
next_ballot-zero id h = ground arith

next_ballot-pos : (id b : ℕ) → 0 < b → 1000 + b < 2 ^ 32 → next_ballot id b ≡ 1000 + b
unfolding next_ballot
next_ballot-pos id b p h = ground arith

ballot_after_lem :
    (id n : ℕ) → 1000 * (n + 1) + id < 2 ^ 32 → ballot_after id n ≡ 1000 * (n + 1) + id
unfolding ballot_after
ballot_after_lem id zero h = next_ballot-zero id (omega arith) ∙ omega arith
ballot_after_lem id (suc n) h =
    rw (ballot_after_lem id n (omega arith))
      (next_ballot-pos id (1000 * (n + 1) + id) (omega arith) (omega arith) ∙ omega arith)

-- Two proposers with different ids below `MAX_N_OF_PROPOSERS` never use the same ballot, however often
-- each is preempted, and each preemption raises a proposer's ballot, as long as the ballots fit
-- into 32 bits.
pub ballots_apart :
    (i j n m : ℕ)
    → i < max_proposers
    → j < max_proposers
    → 1000 * (n + 2) + i < 2 ^ 32
    → 1000 * (m + 1) + j < 2 ^ 32
    → (i ≢ j → ballot_after i n ≢ ballot_after j m) × (ballot_after i n < ballot_after i (n + 1))
ballots_apart i j n m hi hj bi bj =
    (λ ne same. ne (omega (arith, same, at_n, at_m)), omega (arith, at_n, at_next))
  where
    at_n : ballot_after i n ≡ 1000 * (n + 1) + i
    at_n = ballot_after_lem i n (omega arith)

    at_next : ballot_after i (n + 1) ≡ 1000 * (n + 1 + 1) + i
    at_next = ballot_after_lem i (n + 1) (omega arith)

    at_m : ballot_after j m ≡ 1000 * (m + 1) + j
    at_m = ballot_after_lem j m bj
