-- ===== src/Quorum/Marks.antt =====
-- `struct quorum` counts the acceptors that are marked, and two quorums over the same acceptors
-- share one.
use native.Mathlib.Decide.{ℕ_discrete}
use sciascid_libpaxos_d255f.Base.{
  ◌↔◌, sym, ◌∙◌, get_or-set_self, get_or-set_ne, ℕ, zero, suc, ◌+◌, ◌*◌, ◌≤◌, ◌<◌, ◌≡◌, refl, ◌≢◌,
  Bool, true, false, none, some, List, [], ◌∷◌, length, get_elem?, get_or, set, replicate, ◌==◌,
  if◌then◌else◌, length-set, length-replicate, get_elem?-eq-get_or, arith,
}
use sciascid_libpaxos_d255f.Types.{paxos_quorum}
use sciascid_libpaxos_d255f.Quorum.{Quorum, clear, init, add, reached}

-- How many ids are marked.
unfoldable pub marks : List ℕ → ℕ
marks [] = 0
marks (x ∷ xs) = (if x == 0 then 0 else 1) + marks xs

pub record IsValid (q : Quorum) : Type 0 where
  pub sized : length q.acceptor_ids ≡ q.acceptors
  pub counted : q.count ≡ marks q.acceptor_ids
  pub majority : q.quorum ≡ paxos_quorum q.acceptors

-- `id` has been added.
abbrev pub Marked : Quorum → ℕ → Type 0
Marked q id = get_or q.acceptor_ids id 0 ≢ 0

marks-replicate : (n : ℕ) → marks (replicate n 0) ≡ 0
unfolding marks
marks-replicate zero = refl
marks-replicate (suc n) = omega (arith, marks-replicate n)

marks-le-length : (xs : List ℕ) → marks xs ≤ length xs
unfolding marks
marks-le-length [] = omega arith
marks-le-length (x ∷ xs) = ground (arith, marks-le-length xs)

marks-set : (xs : List ℕ) (i : ℕ) → get_elem? xs i ≡ some 0 → marks (set xs i 1) ≡ marks xs + 1
unfolding marks
marks-set [] i h = ground arith
marks-set (x ∷ xs) zero h = ground arith
marks-set (x ∷ xs) (suc i) h = ground (arith, marks-set xs i h)

get_or-replicate : (n i : ℕ) → get_or (replicate {A = ℕ} n 0) i 0 ≡ 0
get_or-replicate zero i = refl
get_or-replicate (suc n) zero = refl
get_or-replicate (suc n) (suc i) = get_or-replicate n i

-- `quorum_clear` keeps the structure valid and forgets every acceptor.
pub clear-IsValid :
    (q : Quorum)
    → IsValid q
    → IsValid (clear q) × ((id : ℕ) → get_or (clear q).acceptor_ids id 0 ≡ 0)
unfolding clear
clear-IsValid q v = (
  record {
    sized = length-replicate q.acceptors 0;
    counted = omega (arith, marks-replicate q.acceptors);
    majority = v.majority;
  },
  get_or-replicate q.acceptors,
)

pub init-IsValid : (acceptors : ℕ) → IsValid (init acceptors)
unfolding init clear
init-IsValid acceptors = record {
  sized = length-replicate acceptors 0;
  counted = omega (arith, marks-replicate acceptors);
  majority = refl;
}

-- What `quorum_add` of `id` has done to `q`: it marks `id`, leaves every other mark, counts it
-- exactly if it was new, and says so.
pub record Added (q : Quorum) (id : ℕ) (fresh : Bool) (r : Quorum) : Type 0 where
  pub valid : IsValid r
  pub marked : get_or r.acceptor_ids id 0 ≢ 0
  pub others : (j : ℕ) → j ≢ id → get_or r.acceptor_ids j 0 ≡ get_or q.acceptor_ids j 0
  pub count_eq : r.count ≡ (if fresh then q.count + 1 else q.count)
  pub fresh_eq : fresh ≡ (get_or q.acceptor_ids id 0 == 0)
  pub same_acceptors : r.acceptors ≡ q.acceptors

get_elem?-eq-none : (xs : List ℕ) (i : ℕ) → length xs ≤ i → get_elem? xs i ≡ none
get_elem?-eq-none [] i h = refl
get_elem?-eq-none (x ∷ xs) zero h = absurd (omega arith)
get_elem?-eq-none (x ∷ xs) (suc i) h = get_elem?-eq-none xs i (omega arith)

add_seen :
    (q : Quorum) (id : ℕ)
    → IsValid q
    → id < q.acceptors
    → get_or q.acceptor_ids id 0 ≢ 0
    → (add q id ≡ some (false, q)) × Added q id false q
unfolding add
add_seen q id v h ne = (
  ground (arith, get_elem?-eq-get_or q.acceptor_ids id 0),
  record {
    valid = v;
    marked = ne;
    others = λ j _. refl;
    count_eq = refl;
    fresh_eq = ground arith;
    same_acceptors = refl;
  },
)

add_new :
    (q : Quorum) (id : ℕ)
    → IsValid q
    → id < q.acceptors
    → get_or q.acceptor_ids id 0 ≡ 0
    → (r : Quorum) × (add q id ≡ some (true, r)) × Added q id true r
unfolding add
add_new q id v h e = (
  record q { count = q.count + 1; acceptor_ids = set q.acceptor_ids id 1 },
  ground (arith, get_elem?-eq-get_or q.acceptor_ids id 0),
  record {
    valid = record {
      sized = length-set q.acceptor_ids id 1 ∙ v.sized;
      counted =
          ground (arith, get_elem?-eq-get_or q.acceptor_ids id 0, marks-set q.acceptor_ids id);
      majority = v.majority;
    };
    marked = omega (arith, get_or-set_self q.acceptor_ids id 1 0, v.sized);
    others = λ j ne. get_or-set_ne q.acceptor_ids 1 0 (λ e. ne (sym e));
    count_eq = refl;
    fresh_eq = ground arith;
    same_acceptors = refl;
  },
)

-- `quorum_add` of the id of an acceptor never faults: it marks that acceptor and no other, answers
-- 1 exactly if the acceptor was not marked before, and counts it then only.
pub add_lem :
    (q : Quorum) (id : ℕ)
    → IsValid q
    → id < q.acceptors
    → (fresh : Bool) × (r : Quorum) × (add q id ≡ some (fresh, r)) × Added q id fresh r
add_lem q id v h = elim (ℕ_discrete (get_or q.acceptor_ids id 0) 0) [
  | yes e ↦ let (r, run, added) = add_new q id v h e in (true, r, run, added)
  | no ne ↦ let (run, added) = add_seen q id v h ne in (false, q, run, added)
]

-- An id that names no acceptor is an access outside the array.
pub add_outside : (q : Quorum) (id : ℕ) → IsValid q → q.acceptors ≤ id → add q id ≡ none
unfolding add
add_outside q id v h = rw (get_elem?-eq-none q.acceptor_ids id (omega (arith, v.sized)))

-- `quorum_reached` holds exactly if more than half of the acceptors are marked.
pub reached_iff :
    (q : Quorum) → IsValid q → (reached q ≡ true) ↔ (q.acceptors < 2 * marks q.acceptor_ids)
unfolding reached paxos_quorum
reached_iff q v =
    (λ h. ground (arith, v.counted, v.majority), λ h. ground (arith, v.counted, v.majority))

next :
    (x y : ℕ) (xs ys : List ℕ)
    → ((i : ℕ) × (i < length xs) × (get_or xs i 0 ≢ 0) × (get_or ys i 0 ≢ 0))
    → (i : ℕ) × (i < length (x ∷ xs)) × (get_or (x ∷ xs) i 0 ≢ 0) × (get_or (y ∷ ys) i 0 ≢ 0)
next x y xs ys (i, lt, mx, my) = (suc i, omega arith, mx, my)

marks_share :
    (xs ys : List ℕ)
    → length xs ≡ length ys
    → length xs < marks xs + marks ys
    → (i : ℕ) × (i < length xs) × (get_or xs i 0 ≢ 0) × (get_or ys i 0 ≢ 0)
unfolding marks
marks_share [] [] e h = absurd (omega arith)
marks_share [] (y ∷ ys) e h = absurd (omega arith)
marks_share (x ∷ xs) [] e h = absurd (omega arith)
marks_share (zero ∷ xs) (zero ∷ ys) e h =
    next 0 0 xs ys (marks_share xs ys (omega arith) (ground arith))
marks_share (suc x ∷ xs) (suc y ∷ ys) e h = (0, omega arith, omega arith, omega arith)
marks_share (zero ∷ xs) (suc y ∷ ys) e h =
    next 0 (suc y) xs ys (marks_share xs ys (omega arith) (ground arith))
marks_share (suc x ∷ xs) (zero ∷ ys) e h =
    next (suc x) 0 xs ys (marks_share xs ys (omega arith) (ground arith))

-- Two quorums that are reached over the same acceptors have an acceptor in common.
pub reached_share :
    (q r : Quorum)
    → IsValid q
    → IsValid r
    → q.acceptors ≡ r.acceptors
    → reached q ≡ true
    → reached r ≡ true
    → (id : ℕ) × (id < q.acceptors) × Marked q id × Marked r id
reached_share q r v w same hq hr =
    let (i, lt, mq, mr) =
      marks_share q.acceptor_ids r.acceptor_ids (omega (arith, v.sized, w.sized))
        (omega (arith, v.sized, (reached_iff q v).0 hq, (reached_iff r w).0 hr)) in
    (i, omega (arith, v.sized), mq, mr)
