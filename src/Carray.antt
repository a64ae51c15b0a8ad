-- ===== src/Carray.antt =====
-- paxos/carray.c: a circular array of pointers that grows when it is full. `A` is the type of the
-- pointers, and `junk` stands for what `malloc` leaves in a fresh cell. An access outside the
-- array or a remainder by 0 is `none`. The `int` fields are natural numbers: doubling the size, which
-- overflows at 2 ^ 30 cells, is taken to succeed, and so is allocation.
pub mod Window
pub mod Refine
use sciascid_libpaxos_d255f.Base.{
  ℕ, zero, suc, ◌+◌, ◌-◌, ◌*◌, ◌%◌, Bool, Option, none, some, List, [], ◌∷◌, length, get_elem?, set,
  replicate, ◌==◌, ltb, if◌then◌else◌, ◌>>=◌, ◌>>◌, require,
}

-- `struct carray`
pub record Carray {ℓ} (A : Type ℓ) : Type ℓ where
  pub head : ℕ
  pub tail : ℕ
  pub size : ℕ
  pub count : ℕ
  pub array : List A

module _ {ℓ} {A : Type ℓ} where
  -- `carray_empty`
  unfoldable pub empty : Carray A → Bool
  empty a = a.count == 0

  -- `carray_full`
  pub full : Carray A → Bool
  full a = a.count == a.size

  -- `carray_at`
  pub elem_at : Carray A → ℕ → Option A
  elem_at a i = do require (ltb 0 a.size); get_elem? a.array ((a.head + i) % a.size)

  -- `carray_push_back` behind its test of `carray_full`
  pub store : Carray A → A → Option (Carray A)
  store a p = do
    require (ltb a.tail (length a.array))
    require (ltb 0 a.size)
    some (record a {
      tail = (a.tail + 1) % a.size;
      count = a.count + 1;
      array = set a.array a.tail p;
    })

  -- `carray_pop_front`; the first component is the pointer returned, `none` for NULL.
  unfoldable pub pop_front : Carray A → Option (Option A × Carray A)
  unfolding empty
  pop_front a = if empty a then some (none, a) else (do
    p ← get_elem? a.array a.head
    require (ltb 0 a.size)
    some (some p, record a { head = (a.head + 1) % a.size; count = a.count - 1 }))

  -- `carray_foreach` from index `i` on, with `n` rounds left: what is handed to the callback.
  foreach_from : Carray A → ℕ → ℕ → Option (List A)
  unfolding elem_at
  foreach_from a i zero = some []
  foreach_from a i (suc n) = do p ← elem_at a i; ps ← foreach_from a (i + 1) n; some (p ∷ ps)

  -- `carray_foreach`
  unfoldable pub foreach : Carray A → Option (List A)
  unfolding foreach_from
  foreach a = foreach_from a 0 a.count

module _ {ℓ} {A : Type ℓ} (junk : A) where
  -- `carray_new`
  unfoldable pub new : ℕ → Carray A
  new size = record { head = 0; tail = 0; size = size; count = 0; array = replicate size junk }

  -- `carray_push_back` and `carray_grow` call one another. The number bounds how deep: `grow`
  -- pushes into an array of twice the size, which never is full, so 1 is enough. The size is a natural
  -- number, as of fewer than 2 ^ 30 cells, where `size * 2` does not overflow.
  push_with : (Carray A → Option (Carray A)) → Carray A → A → Option (Carray A)
  unfolding full store
  push_with grow_by a p = if full a then (grow_by a >>= λ b. store b p) else store a p

  -- The loop of `carray_grow` from index `i` on, with `n` rounds left.
  copy_from : (Carray A → A → Option (Carray A)) → Carray A → Carray A → ℕ → ℕ → Option (Carray A)
  unfolding elem_at
  copy_from push a tmp i zero = some tmp
  copy_from push a tmp i (suc n) = do
    p ← elem_at a i
    tmp' ← push tmp p
    copy_from push a tmp' (i + 1) n

  -- `carray_grow`
  grow : ℕ → Carray A → Option (Carray A)
  unfolding push_with copy_from new
  grow zero a = none
  grow (suc depth) a = do
    tmp ← copy_from (push_with (grow depth)) a (new (a.size * 2)) 0 a.count
    some (record a { head = 0; tail = tmp.tail; size = tmp.size; array = tmp.array })

  -- `carray_push_back`
  unfoldable pub push_back : Carray A → A → Option (Carray A)
  unfolding push_with grow
  push_back = push_with (grow 1)
