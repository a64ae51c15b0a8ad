-- ===== src/Acceptor/Forward.antt =====
-- paxos/acceptor.c: which acceptor a reply is passed back to. `get_srcid_promise_and_adjust` and
-- `get_srcid_accepted` are the same code over `paxos_promise` and `paxos_accepted`.
use sciascid_libpaxos_d255f.Base.{
  ℕ, zero, suc, ◌+◌, ◌/◌, ℤ, pos, negsuc, int_of_u32, Bool, true, Option, none, some, List,
  get_elem?, leb, if◌then◌else◌, ◌>>=◌,
}
use sciascid_libpaxos_d255f.Types.{Accepted, Preempted}
use sciascid_libpaxos_d255f.Storage.{StorageApi}
use sciascid_libpaxos_d255f.Acceptor.{Acceptor}
use sciascid_libpaxos_d255f.Acceptor.Convert.{has_aid, append_aid}

-- `p[i]`
unfoldable pub index : Option (List ℕ) → ℕ → Option ℕ
index none i = none
index (some xs) i = get_elem? xs i

module _ (s : StorageApi) where
  open s use {Handle}

  -- The loop over the acceptors of a reply: the record in the storage so far, `n_aids` of the last
  -- record that was put (0 before the first), and the storage.
  pub record Merge : Type 0 where
    pub acc : Accepted
    pub added : ℕ
    pub store : Handle

  -- The loop at the acceptor of index `j`.
  unfoldable pub merge_one : Accepted → ℕ → Merge → Option Merge
  unfolding index has_aid append_aid
  merge_one reply j m = do
    id ← index reply.aids j
    found ← has_aid id m.acc
    if found then some m else (do
      ballot ← index reply.ballots j
      value_ballot ← index reply.value_ballots j
      acc' ← append_aid m.acc id ballot value_ballot
      (_, h) ← s.put m.store acc'
      some (record { acc = acc'; added = acc'.n_aids; store = h }))

  -- The loop from index `j` on, with `n` rounds left.
  unfoldable pub merge_from : Accepted → ℕ → ℕ → Merge → Option Merge
  unfolding merge_one
  merge_from reply j zero m = some m
  merge_from reply j (suc n) m = do m' ← merge_one reply j m; merge_from reply (j + 1) n m'

  -- The test of the count against half of `subordinates`: C's division of an `int` cuts towards 0, so
  -- that half of a negative one is at most 0, which no count is below.
  unfoldable pub enough : ℤ → ℕ → Bool
  enough (pos n) added = leb (n / 2) added
  enough (negsuc n) added = true

  -- Commit and return; `none` of the first argument is `ret == -1`.
  unfoldable pub source_of : Acceptor s → Option Merge → ℤ × Acceptor s
  unfolding enough
  source_of a none = (negsuc 0, record a { store = (s.tx_commit a.store).1 })
  source_of a (some m) =
      let (committed, h) = s.tx_commit m.store in
      (
        if committed
            then (if enough a.subordinates m.added then int_of_u32 m.acc.src else negsuc 0)
            else negsuc 0,
        record a { store = h },
      )

  unfoldable pub merge_found : Accepted → Acceptor s → Option Accepted → Option (ℤ × Acceptor s)
  unfolding merge_from source_of
  merge_found reply a none = some (source_of a none)
  merge_found reply a (some acc) = do
    m ← merge_from reply 0 reply.n_aids (record { acc = acc; added = 0; store = a.store })
    some (source_of a (some m))

  -- `get_srcid_promise_and_adjust` and `get_srcid_accepted`
  unfoldable pub get_srcid : Accepted → Acceptor s → Option (ℤ × Acceptor s)
  unfolding merge_found
  get_srcid reply a =
      let (begun, h) = s.tx_begin a.store in
      if begun
      then (do found ← s.get h reply.iid; merge_found reply (record a { store = h }) found)
      else some (negsuc 0, record a { store = h })

  -- `get_srcid_preempted`
  unfoldable pub get_srcid_preempted : Preempted → Acceptor s → Option (ℤ × Acceptor s)
  get_srcid_preempted reply a =
      let (begun, h) = s.tx_begin a.store in
      let (committed, h') = s.tx_commit h in
      if begun
      then (do
        found ← s.get h reply.iid
        some (
          if committed
              then (elim found [ none ↦ negsuc 0 | some acc ↦ int_of_u32 acc.src ])
              else negsuc 0,
          record a { store = h' },
        ))
      else some (negsuc 0, record a { store = h })
