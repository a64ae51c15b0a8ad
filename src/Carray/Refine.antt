-- ===== src/Carray/Refine.antt =====
-- The operations of paxos/carray.c against a queue of unbounded length: a list, oldest first.
use mathlib.Core.List.{append_assoc, append-nil}
use native.Mathlib.Nat.{mod-add-mod, mod-eq_of_lt, zero-add}
use native.Mathlib.Numerals.{add-one}
use sciascid_libpaxos_d255f.Base.{
  ℕ, zero, suc, ◌+◌, ◌-◌, ◌*◌, ◌%◌, ◌≤◌, ◌<◌, ◌≡◌, refl, ap, ap₂, ◌∙◌, sym, ◌⊎◌, inl, inr, List, [],
  ◌∷◌, ◌++◌, Option, none, some, length, get_or, set, ◌==◌, Bool-cases, length-set,
  length-replicate, get_elem?-eq-get_or, get_or-set_self, arith,
}
use sciascid_libpaxos_d255f.Carray.{
  Carray, empty, full, elem_at, store, pop_front, foreach_from, foreach, new, push_with, copy_from,
  grow, push_back,
}
use sciascid_libpaxos_d255f.Carray.Window.{
  IsValid, mod_in, window, window-set, window-suc, window-next, contents,
}

module _ {ℓ} {A : Type ℓ} (junk : A) where
  -- What a push of `p` has done to `a`.
  pub record Pushed (a : Carray A) (p : A) (b : Carray A) : Type ℓ where
    pub valid : IsValid b
    pub holds : contents junk b ≡ contents junk a ++ (p ∷ [])
    pub one_more : b.count ≡ a.count + 1

  elem_at_lem :
      (a : Carray A) (i : ℕ)
      → IsValid a
      → i < a.count
      → elem_at a i ≡ some (get_or a.array ((a.head + i) % a.size) junk)
  unfolding elem_at
  elem_at_lem a i v h =
      ground
        (arith, mod_in a.head i a.size, get_elem?-eq-get_or a.array ((a.head + i) % a.size) junk)

  -- Writing the cell behind the window appends.
  window-append :
      (xs : List A) (size h n t : ℕ) (p : A)
      → length xs ≡ size
      → h < size
      → n < size
      → t ≡ (h + n) % size
      → window junk size (set xs t p) h 0 (n + 1) ≡ window junk size xs h 0 n ++ (p ∷ [])
  window-append xs size h n t p cells hh nn e =
      rw (e, add-one, window-suc junk size (set xs ((h + n) % size) p) h 0 n)
        (ap₂ (λ l x. l ++ (x ∷ [])) (window-set junk size xs p h n 0 n hh (omega arith) nn)
          (rw (zero-add n)
            (get_or-set_self xs ((h + n) % size) p junk (omega (arith, mod_in h n size hh nn)))))

  -- With room left, `store` appends and moves nothing.
  store_lem :
      (a : Carray A) (p : A)
      → IsValid a
      → a.count < a.size
      → (b : Carray A) × (store a p ≡ some b) × Pushed a p b × (b.size ≡ a.size) × (b.head ≡ a.head)
  unfolding store
  store_lem a p v room = (
    record a { tail = (a.tail + 1) % a.size; count = a.count + 1; array = set a.array a.tail p },
    ground (arith, mod_in a.head a.count a.size),
    record {
      valid = record {
        cells = rw (length-set a.array a.tail p) v.cells;
        some_room = v.some_room;
        head_in = v.head_in;
        count_in = omega arith;
        tail_is = rw (v.tail_is, mod-add-mod) (ap (λ k. k % a.size) (omega arith));
      };
      holds = window-append a.array a.size a.head a.count a.tail p v.cells v.head_in room v.tail_is;
      one_more = refl;
    },
    refl,
    refl,
  )

  -- The loop of `carray_grow` appends the elements that it reads, if the new array has room.
  copy_from_lem :
      (push : Carray A → A → Option (Carray A)) (a tmp : Carray A) (i n : ℕ)
      → ((t : Carray A) (p : A) → t.count < t.size → push t p ≡ store t p)
      → IsValid a
      → IsValid tmp
      → i + n ≤ a.count
      → tmp.count + n ≤ tmp.size
      → (t : Carray A) × (copy_from junk push a tmp i n ≡ some t)
        × IsValid t
        × (contents junk t ≡ contents junk tmp ++ window junk a.size a.array a.head i n)
        × (t.size ≡ tmp.size)
        × (t.head ≡ tmp.head)
        × (t.count ≡ tmp.count + n)
  unfolding copy_from
  copy_from_lem push a tmp i zero same v w inside room =
      (tmp, refl, w, sym (append-nil (contents junk tmp)), refl, refl, omega arith)
  copy_from_lem push a tmp i (suc n) same v w inside room =
      let x : A = get_or a.array ((a.head + i) % a.size) junk in
      let (t, e, pushed, size_eq, head_eq) = store_lem tmp x w (omega arith) in
      let (u, run, valid, holds, s', h', c') =
        copy_from_lem push a t (i + 1) n same v pushed.valid (omega arith)
          (omega (arith, pushed.one_more, size_eq)) in
      (
        u,
        rw (elem_at_lem a i v (omega arith), same tmp x (omega arith), e) run,
        valid,
        rw (holds, pushed.holds) (append_assoc (contents junk tmp) (x ∷ []) _),
        s' ∙ size_eq,
        h' ∙ head_eq,
        omega (arith, c', pushed.one_more),
      )

  -- `carray_new` of a positive size is valid and holds nothing.
  pub new-IsValid :
      (size : ℕ) → 0 < size → IsValid (new junk size) × (contents junk (new junk size) ≡ [])
  unfolding new
  new-IsValid size h = (
    record {
      cells = length-replicate size junk;
      some_room = h;
      head_in = h;
      count_in = omega arith;
      tail_is = rw zero-add (sym (mod-eq_of_lt h));
    },
    refl,
  )

  push_with-store :
      (g : Carray A → Option (Carray A)) (t : Carray A) (p : A)
      → t.count < t.size
      → push_with junk g t p ≡ store t p
  unfolding push_with full
  push_with-store g t p h = ground arith

  -- `carray_grow` keeps the elements in order and leaves room for one more.
  grow_lem :
      (a : Carray A) (depth : ℕ)
      → IsValid a
      → (b : Carray A) × (grow junk (suc depth) a ≡ some b)
        × IsValid b
        × (contents junk b ≡ contents junk a)
        × (b.count ≡ a.count)
        × (b.size ≡ a.size * 2)
  unfolding grow new
  grow_lem a depth v =
      let (fresh_valid, fresh_empty) = new-IsValid (a.size * 2) (omega (arith, v.some_room)) in
      let (t, run, valid, holds, s, h, c) =
        copy_from_lem (push_with junk (grow junk depth)) a (new junk (a.size * 2)) 0 a.count
          (push_with-store (grow junk depth)) v fresh_valid (omega arith)
          (omega (arith, v.count_in)) in
      (
        record a { head = 0; tail = t.tail; size = t.size; array = t.array },
        rw run,
        record {
          cells = valid.cells;
          some_room = valid.some_room;
          head_in = valid.some_room;
          count_in = omega (arith, s, v.count_in);
          tail_is = valid.tail_is ∙ ap₂ (λ x y. (x + y) % t.size) h (c ∙ zero-add a.count);
        },
        ap₂ (λ x y. window junk t.size t.array x 0 y) (sym h) (sym (c ∙ zero-add a.count)) ∙ holds,
        refl,
        s,
      )

  -- `carray_push_back` never faults on a valid array, full or not: it puts the pointer behind those
  -- that the array holds, in their order, and the array stays valid.
  pub push_back_refines :
      (a : Carray A) (p : A)
      → IsValid a
      → (b : Carray A) × (push_back junk a p ≡ some b) × Pushed a p b
  unfolding push_back push_with full
  push_back_refines a p v = elim (Bool-cases (a.count == a.size)) [
    | inl e ↦
        let (g, run, valid, holds, c, s) = grow_lem a 0 v in
        let (b, put, pushed, _, _) =
          store_lem g p valid (omega (arith, c, s, v.some_room, v.count_in)) in
        (
          b,
          rw (e, run) put,
          record {
            valid = pushed.valid;
            holds = pushed.holds ∙ ap (λ l. l ++ (p ∷ [])) holds;
            one_more = omega (arith, pushed.one_more, c);
          },
        )
    | inr e ↦
        let (b, put, pushed, _, _) = store_lem a p v (ground (arith, v.count_in)) in
        (b, rw e put, pushed)
  ]

  -- What `carray_pop_front` has done to `a`: nothing if it holds nothing, and else it has taken the
  -- oldest element.
  abbrev pub Popped : Carray A → Option (Option A × Carray A) → Type ℓ
  Popped a r =
      ((contents junk a ≡ []) × (r ≡ some (none, a)))
      ⊎ ((p : A) × (b : Carray A) × (r ≡ some (some p, b))
          × IsValid b
          × (contents junk a ≡ p ∷ contents junk b))

  -- The oldest element, and the window behind it.
  window-oldest :
      (xs : List A) (size h n m : ℕ)
      → h < size
      → m ≤ size
      → m ≡ suc n
      → window junk size xs h 0 m
        ≡ get_or xs h junk ∷ window junk size xs ((h + 1) % size) 0 (m - 1)
  window-oldest xs size h n m hh le e =
      ap (window junk size xs h 0) e
      ∙ ap₂ ◌∷◌ (ap (λ k. get_or xs k junk) (ap (λ k. k % size) (omega arith) ∙ mod-eq_of_lt hh)) (
          sym (window-next junk size xs h 0 n hh (omega arith))
          ∙ ap (window junk size xs ((h + 1) % size) 0) (omega arith))

  pop_some : (a : Carray A) (n : ℕ) → IsValid a → a.count ≡ suc n → Popped a (pop_front a)
  unfolding pop_front empty
  pop_some a n v e = inr (
    get_or a.array a.head junk,
    record a { head = (a.head + 1) % a.size; count = a.count - 1 },
    ground (arith, get_elem?-eq-get_or a.array a.head junk),
    record {
      cells = v.cells;
      some_room = v.some_room;
      head_in = omega arith;
      count_in = omega arith;
      tail_is =
          v.tail_is
          ∙ sym
              (mod-add-mod (a.head + 1) a.size (a.count - 1) ∙ ap (λ k. k % a.size) (omega arith));
    },
    window-oldest a.array a.size a.head n a.count v.head_in v.count_in e,
  )

  pop_count : {a : Carray A} (n : ℕ) → a.count ≡ n → IsValid a → Popped a (pop_front a)
  unfolding pop_front empty
  pop_count {a} zero e v = inl (ap (window junk a.size a.array a.head 0) e, ground arith)
  pop_count {a} (suc n) e v = pop_some a n v e

  -- `carray_pop_front` never faults on a valid array: it returns NULL and changes nothing exactly
  -- if the array holds nothing, and else returns the oldest element and keeps the others in order.
  pub pop_front_refines : (a : Carray A) → IsValid a → Popped a (pop_front a)
  pop_front_refines a v = pop_count a.count refl v

  foreach_from_lem :
      (a : Carray A) (i n : ℕ)
      → IsValid a
      → i + n ≤ a.count
      → foreach_from a i n ≡ some (window junk a.size a.array a.head i n)
  unfolding foreach_from
  foreach_from_lem a i zero v h = refl
  foreach_from_lem a i (suc n) v h =
      rw (elem_at_lem a i v (omega arith), foreach_from_lem a (i + 1) n v (omega arith))

  -- `carray_foreach` calls its callback on the elements of a valid array, oldest first.
  pub foreach-contents : (a : Carray A) → IsValid a → foreach a ≡ some (contents junk a)
  unfolding foreach
  foreach-contents a v = foreach_from_lem a 0 a.count v (omega arith)
