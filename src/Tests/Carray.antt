-- ===== src/Tests/Carray.antt =====
-- paxos/carray.c on a small array.
use sciascid_libpaxos_d255f.Base.{ℕ, ◌≡◌, refl, some, [], ◌∷◌, arith}
use sciascid_libpaxos_d255f.Carray.{Carray, push_back, pop_front, foreach}
use sciascid_libpaxos_d255f.Carray.Window.{IsValid}
use sciascid_libpaxos_d255f.Carray.Refine.{
  Pushed, Popped, push_back_refines, pop_front_refines, foreach-contents,
}

-- 5 and 6, round the end of the array, which is full.
abbrev wrapped : Carray ℕ
wrapped = record { head = 1; tail = 1; size = 2; count = 2; array = 6 ∷ 5 ∷ [] }

wrapped-IsValid : IsValid wrapped
wrapped-IsValid = record {
  cells = refl;
  some_room = omega arith;
  head_in = omega arith;
  count_in = omega arith;
  tail_is = refl;
}

-- A full array grows, and starts at its first cell.
push_grows :
    push_back 9 wrapped 7
    ≡ some (record { head = 0; tail = 3; size = 4; count = 3; array = 5 ∷ 6 ∷ 7 ∷ 9 ∷ [] })
unfolding push_back
push_grows = refl

push_back_refines_example : (b : Carray ℕ) × (push_back 9 wrapped 7 ≡ some b) × Pushed 9 wrapped 7 b
push_back_refines_example = push_back_refines 9 wrapped 7 wrapped-IsValid

pop_front_refines_example : Popped 9 wrapped (pop_front wrapped)
pop_front_refines_example = pop_front_refines 9 wrapped wrapped-IsValid

foreach-contents_example : foreach wrapped ≡ some (5 ∷ 6 ∷ [])
foreach-contents_example = foreach-contents 9 wrapped wrapped-IsValid
