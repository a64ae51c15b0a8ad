-- ===== src/Tests/Quorum.antt =====
-- paxos/quorum.c with three acceptors.
use sciascid_libpaxos_d255f.Base.{ℕ, ◌<◌, ◌*◌, ◌≡◌, ◌↔◌, refl, Bool, true, some, [], ◌∷◌, arith}
use sciascid_libpaxos_d255f.Types.{paxos_quorum}
use sciascid_libpaxos_d255f.Quorum.{Quorum, add, reached}
use sciascid_libpaxos_d255f.Quorum.Marks.{
  IsValid, Marked, Added, marks, add_lem, reached_iff, reached_share,
}

-- Acceptors 0 and 2 of three have answered.
abbrev two_of_three : Quorum
two_of_three = record { count = 2; quorum = 2; acceptors = 3; acceptor_ids = 1 ∷ 0 ∷ 1 ∷ [] }

-- Acceptors 1 and 2 have.
abbrev other_two : Quorum
other_two = record two_of_three { acceptor_ids = 0 ∷ 1 ∷ 1 ∷ [] }

two_of_three-IsValid : IsValid two_of_three
unfolding marks paxos_quorum
two_of_three-IsValid = record { sized = refl; counted = refl; majority = refl }

other_two-IsValid : IsValid other_two
unfolding marks paxos_quorum
other_two-IsValid = record { sized = refl; counted = refl; majority = refl }

two_reached : reached two_of_three ≡ true
unfolding reached
two_reached = refl

other_reached : reached other_two ≡ true
unfolding reached
other_reached = refl

add_lem_example :
    (fresh : Bool) × (r : Quorum) × (add two_of_three 1 ≡ some (fresh, r))
    × Added two_of_three 1 fresh r
add_lem_example = add_lem two_of_three 1 two_of_three-IsValid (omega arith)

reached_iff_example : (reached two_of_three ≡ true) ↔ (3 < 2 * marks (1 ∷ 0 ∷ 1 ∷ []))
reached_iff_example = reached_iff two_of_three two_of_three-IsValid

reached_share_example : (id : ℕ) × (id < 3) × Marked two_of_three id × Marked other_two id
reached_share_example =
    reached_share two_of_three other_two two_of_three-IsValid other_two-IsValid refl two_reached
      other_reached
