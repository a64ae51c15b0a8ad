-- ===== src/Acceptor/Service.antt =====
-- paxos/acceptor.c: repeated values, trimming and the state that is sent around.
use sciascid_libpaxos_d255f.Base.{
  ℕ, Bool, false, Option, none, some, leb, ltb, if◌then◌else◌, ◌>>=◌,
}
use sciascid_libpaxos_d255f.Types.{Accepted, AcceptorState}
use sciascid_libpaxos_d255f.Accepted.{first}
use sciascid_libpaxos_d255f.Storage.{StorageApi}
use sciascid_libpaxos_d255f.Acceptor.{Acceptor}

-- What `acceptor_receive_repeat` returns with `out` read from the storage.
unfoldable pub repeat_out : Option Accepted → Option (Option Accepted)
unfolding first
repeat_out none = some none
repeat_out (some out) = elim out.values [
  | none ↦ some none
  | some vs ↦ (do v ← first (some vs); some (if ltb 0 v.len then some out else none))
]

module _ (s : StorageApi) where
  -- `acceptor_receive_repeat`; the answer is `out` where the code returns 1.
  unfoldable pub receive_repeat : Acceptor s → ℕ → Option (Option Accepted × Acceptor s)
  unfolding repeat_out
  receive_repeat a iid =
      let (begun, h) = s.tx_begin a.store in
      let (committed, h') = s.tx_commit h in
      if begun
      then (do
        found ← s.get h iid
        if committed
            then (do out ← repeat_out found; some (out, record a { store = h' }))
            else some (none, record a { store = h' }))
      else some (none, record a { store = h })

  -- `acceptor_receive_trim`
  unfoldable pub receive_trim : Acceptor s → ℕ → Bool × Acceptor s
  receive_trim a iid =
      let (begun, h) = s.tx_begin a.store in
      let (_, h') = s.trim h iid in
      let (committed, h'') = s.tx_commit h' in
      if leb iid a.trim_iid
      then (false, a)
      else (if begun
          then (committed, record a { trim_iid = iid; store = h'' })
          else (false, record a { trim_iid = iid; store = h }))

  -- `acceptor_set_current_state`
  unfoldable pub current_state : Acceptor s → AcceptorState
  current_state a = record { aid = a.id; trim_iid = a.trim_iid }
