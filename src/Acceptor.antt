-- ===== src/Acceptor.antt =====
-- paxos/acceptor.c over any storage. A handler answers `some none` where the code returns 0, and
-- `none` for an access outside an array.
pub mod Convert
pub mod Service
pub mod Forward
pub mod Valid
pub mod Steps
pub mod Accepting
pub mod Promises
pub mod Preparing
pub mod Trimming
pub mod Safety
pub mod Repeating
pub mod Faults
use sciascid_libpaxos_d255f.Base.{
  ℕ, ℤ, u32_of_int, Bool, true, false, Option, none, some, List, [], ◌∷◌, leb, ltb, ◌==◌,
  if◌then◌else◌, ◌>>=◌, ◌&&◌,
}
use sciascid_libpaxos_d255f.Types.{Accepted, Prepare, Accept, Message, accepted, AcceptorState}
use sciascid_libpaxos_d255f.Accepted.{zeroed, first}
use sciascid_libpaxos_d255f.Storage.{StorageApi}
use Convert.{accepted_to_promise, accept_to_accepted, accepted_to_preempted, has_aid, append_aid}

module _ (s : StorageApi) where
  open s use {Handle}

  -- `struct acceptor`
  pub record Acceptor : Type 0 where
    pub id : ℕ
    pub trim_iid : ℕ
    pub subordinates : ℤ
    pub store : Handle

  -- What a handler leaves: its answer and the acceptor.
  abbrev pub Reply : Type 0
  Reply = Option (Option Message × Acceptor)

  -- The end of `acceptor_new` with the storage open; `none` is NULL, and `junk` is what `malloc`
  -- leaves in `subordinates`.
  new_opened : ℕ → ℤ → Bool × Handle → Option Acceptor
  new_opened id junk (begun, h) =
      let (committed, h') = s.tx_commit h in
      if begun
      then (if committed
          then some (record {
            id = id;
            trim_iid = s.get_trim_instance h;
            subordinates = junk;
            store = h';
          })
          else none)
      else none

  -- `acceptor_new` with the storage that `storage_init` has chosen
  unfoldable pub new : ℕ → ℤ → Handle → Option Acceptor
  unfolding new_opened
  new id junk store =
      let (opened, h) = s.open_store store in
      if opened then new_opened id junk (s.tx_begin h) else none

  -- `setsubordinates`
  unfoldable pub set_subordinates : Acceptor → ℤ → Acceptor
  set_subordinates a n = record a { subordinates = n }

  -- A commit, and the answer `out` if it succeeds.
  pub commit : Acceptor → Option Message → Option Message × Acceptor
  commit a out =
      let (committed, h) = s.tx_commit a.store in
      (if committed then out else none, record a { store = h })

  -- The end of `acceptor_receive_prepare`: commit, then promise what `acc` says.
  pub promise_record : Acceptor → Accepted → Reply
  unfolding commit accepted_to_promise
  promise_record a acc =
      let (committed, h) = s.tx_commit a.store in
      if committed
      then (do out ← accepted_to_promise acc; some (some out, record a { store = h }))
      else some (none, record a { store = h })

  -- The record that `acceptor_receive_prepare` writes over `acc`.
  pub prepared : ℕ → ℤ → Prepare → Accepted → Accepted
  prepared id isrc req acc = record acc {
    src = u32_of_int isrc;
    iid = req.iid;
    ballot_0 = req.ballot;
    n_aids = 1;
    aids = some (id ∷ []);
    values = none;
    ballots = some (req.ballot ∷ []);
    value_ballots = some (req.ballot ∷ []);
  }

  -- The branch for a ballot that is not smaller than that of the record.
  pub prepare_new : ℤ → Acceptor → Prepare → Accepted → Reply
  unfolding promise_record prepared
  prepare_new isrc a req acc = do
    (stored_it, h) ← s.put a.store (prepared a.id isrc req acc)
    if stored_it
        then promise_record (record a { store = h }) (prepared a.id isrc req acc)
        else some (none, record a { store = s.tx_abort h })

  -- The other branch: the record stays, and may get the acceptor's id.
  pub prepare_old : Acceptor → Prepare → Accepted → Reply
  unfolding promise_record has_aid append_aid
  prepare_old a req acc = do
    found ← has_aid a.id acc
    if found then promise_record a acc else (do
      acc' ← append_aid acc a.id req.ballot req.ballot
      (_, h) ← s.put a.store acc'
      promise_record (record a { store = h }) acc')

  pub prepare_found : ℤ → Acceptor → Prepare → Option Accepted → Reply
  unfolding prepare_new prepare_old first
  prepare_found isrc a req none = prepare_new isrc a req zeroed
  prepare_found isrc a req (some acc) = do
    ballot ← first acc.ballots
    if leb ballot req.ballot then prepare_new isrc a req acc else prepare_old a req acc

  -- `acceptor_receive_prepare`
  unfoldable pub receive_prepare : ℤ → Acceptor → Prepare → Reply
  unfolding prepare_found
  receive_prepare isrc a req =
      let (begun, h) = s.tx_begin a.store in
      if leb req.iid a.trim_iid
      then some (none, a)
      else (if begun
          then (do found ← s.get h req.iid; prepare_found isrc (record a { store = h }) req found)
          else some (none, record a { store = h }))

  -- The branch of `acceptor_receive_accept` that accepts.
  pub accept_new : Acceptor → Accept → Reply
  unfolding commit accept_to_accepted
  accept_new a req = do
    acc ← accept_to_accepted a.id req
    (stored_it, h) ← s.put a.store acc
    if stored_it
        then some (commit (record a { store = h }) (some (accepted acc)))
        else some (none, record a { store = s.tx_abort h })

  pub accept_found : Acceptor → Accept → Option Accepted → Reply
  unfolding accept_new accepted_to_preempted first commit
  accept_found a req none = accept_new a req
  accept_found a req (some acc) = do
    ballot ← first acc.ballots
    if leb ballot req.ballot
        then accept_new a req
        else (do out ← accepted_to_preempted a.id acc; some (commit a (some out)))

  -- `acceptor_receive_accept`
  unfoldable pub receive_accept : Acceptor → Accept → Reply
  unfolding accept_found
  receive_accept a req =
      let (begun, h) = s.tx_begin a.store in
      if leb req.iid a.trim_iid
      then some (none, a)
      else (if begun
          then (do found ← s.get h req.iid; accept_found (record a { store = h }) req found)
          else some (none, record a { store = h }))
