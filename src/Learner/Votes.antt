-- ===== src/Learner/Votes.antt =====
-- `instance_has_quorum` of paxos/learner.c against a count of the acceptors that agree.
use native.Mathlib.Numerals.{add-one}
use sciascid_libpaxos_d255f.Base.{
  ℕ, zero, suc, ◌+◌, ◌≡◌, refl, ap, ◌∙◌, ◌⊎◌, inl, inr, false, Option, none, some, List, [], ◌∷◌,
  length, get_elem?, ◌==◌, if◌then◌else◌, Bool-cases, arith,
}
use sciascid_libpaxos_d255f.Types.{Accepted}
use sciascid_libpaxos_d255f.Accepted.{first, IsWhole, ballot_of, first-ballots}
use sciascid_libpaxos_d255f.Learner.{tally}

-- How many acceptors have last accepted with the ballot `b`.
unfoldable pub votes : ℕ → List (Option Accepted) → ℕ
votes b [] = 0
votes b (none ∷ acks) = votes b acks
votes b (some a ∷ acks) = (if ballot_of a == b then 1 else 0) + votes b acks

-- The records of the acceptors `j`, `j + 1`, … for the instance `k`: each owns its arrays, is of
-- that instance and of that acceptor.
abbrev pub AllAcks : ℕ → ℕ → List (Option Accepted) → Type 0
AllAcks k j [] = Unit {0}
AllAcks k j (none ∷ acks) = AllAcks k (suc j) acks
AllAcks k j (some a ∷ acks) =
    (IsWhole a × (a.iid ≡ k) × (first a.aids ≡ some j)) × AllAcks k (suc j) acks

-- The record of an acceptor that has accepted with the ballot `b`.
pub record Agrees (b : ℕ) (acks : List (Option Accepted)) (j : ℕ) : Type 0 where
  pub ack : Accepted
  pub at : get_elem? acks j ≡ some (some ack)
  pub ballot_is : ballot_of ack ≡ b

-- What the loop finds, from the acceptor `i` on and with the index `v` before.
abbrev pub Found : ℕ → ℕ → List (Option Accepted) → Option ℕ → Option ℕ → Type 0
Found b i acks v v' =
    ((v' ≡ v) × (votes b acks ≡ 0)) ⊎ ((j : ℕ) × (v' ≡ some (i + j)) × Agrees b acks j)

Found-none :
    (b i : ℕ) (acks : List (Option Accepted)) (v v' : Option ℕ)
    → Found b (i + 1) acks v v'
    → Found b i (none ∷ acks) v v'
unfolding votes
Found-none b i acks v v' (inl h) = inl h
Found-none b i acks v v' (inr (j, e, g)) =
    inr
      (suc j, e ∙ ap some (omega arith), record { ack = g.ack; at = g.at; ballot_is = g.ballot_is })

Found-other :
    (b i : ℕ) (a : Accepted) (acks : List (Option Accepted)) (v v' : Option ℕ)
    → (ballot_of a == b) ≡ false
    → Found b (i + 1) acks v v'
    → Found b i (some a ∷ acks) v v'
unfolding votes
Found-other b i a acks v v' ne (inl (e, z)) = inl (e, rw ne (omega arith))
Found-other b i a acks v v' ne (inr (j, e, g)) =
    inr
      (suc j, e ∙ ap some (omega arith), record { ack = g.ack; at = g.at; ballot_is = g.ballot_is })

Found-same :
    (b i : ℕ) (a : Accepted) (acks : List (Option Accepted)) (v v' : Option ℕ)
    → ballot_of a ≡ b
    → Found b (i + 1) acks (some i) v'
    → Found b i (some a ∷ acks) v v'
Found-same b i a acks v v' same (inl (e, z)) =
    inr (0, e ∙ ap some (omega arith), record { ack = a; at = refl; ballot_is = same })
Found-same b i a acks v v' same (inr (j, e, g)) =
    inr
      (suc j, e ∙ ap some (omega arith), record { ack = g.ack; at = g.at; ballot_is = g.ballot_is })

-- The loop counts the votes, and ends with the index of an acceptor that agrees, if one does.
pub tally_lem :
    (b n i k : ℕ) (acks : List (Option Accepted)) (c : ℕ) (v : Option ℕ)
    → length acks ≡ n
    → AllAcks k i acks
    → (v' : Option ℕ) × (tally b n i acks c v ≡ some (c + votes b acks, v')) × Found b i acks v v'
unfolding tally votes
tally_lem b zero i k [] c v e w = (v, ap (λ x. some (x, v)) (omega arith), inl (refl, refl))
tally_lem b zero i k (x ∷ acks) c v e w = absurd (omega arith)
tally_lem b (suc n) i k [] c v e w = absurd (omega arith)
tally_lem b (suc n) i k (none ∷ acks) c v e w =
    let (v', run, found) = tally_lem b n (i + 1) k acks c v (omega arith) (rw add-one w) in
    (v', run, Found-none b i acks v v' found)
tally_lem b (suc n) i k (some a ∷ acks) c v e (wa, w) = elim (Bool-cases (ballot_of a == b)) [
  | inl same ↦
      let (v', run, found) =
        tally_lem b n (i + 1) k acks (c + 1) (some i) (omega arith) (rw add-one w) in
      (
        v',
        rw (first-ballots a wa.0, same) (run ∙ ap (λ x. some (x, v')) (omega arith)),
        Found-same b i a acks v v' (ground arith) found,
      )
  | inr other ↦
      let (v', run, found) = tally_lem b n (i + 1) k acks c v (omega arith) (rw add-one w) in
      (
        v',
        rw (first-ballots a wa.0, other) (run ∙ ap (λ x. some (x, v')) (omega arith)),
        Found-other b i a acks v v' other found,
      )
]
