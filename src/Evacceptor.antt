-- ===== src/Evacceptor.antt =====
-- evpaxos/evacceptor.c: what an acceptor does with each message, as the list of what it sends. The
-- sockets behind are not modelled: sending to a peer that is not connected is up to them.
pub mod Telling
pub mod Replaying
use sciascid_libpaxos_d255f.Base.{
  ℕ, zero, suc, ◌+◌, ◌-◌, ◌%◌, u32_mod, leb, Bool, true, false, ◌++◌, if◌then◌else◌, ℤ, pos, negsuc,
  int_of_u32, Option, none, some, List, [], ◌∷◌, ◌>>=◌,
}
use sciascid_libpaxos_d255f.Types.{
  Prepare, Accept, Accepted, Preempted, Repeat, Message, promise, accepted, preempted,
}
use sciascid_libpaxos_d255f.Storage.{StorageApi}
use sciascid_libpaxos_d255f.Acceptor.{Acceptor, receive_prepare, receive_accept}
use sciascid_libpaxos_d255f.Acceptor.Service.{receive_trim, receive_repeat}
use sciascid_libpaxos_d255f.Acceptor.Forward.{get_srcid, get_srcid_preempted}

-- What is sent, and to whom: `to_peer` answers the sender, `to_down_…` passes the request on with
-- `peers_foreach_down_acceptor`, `to_clients` is `peers_foreach_client`, and `to_acceptor` passes a
-- reply back to the acceptor of that id, if it is connected.
pub data Output : Type 0 where
  to_peer : Message → Output
  to_down_prepare : Prepare → Output
  to_down_accept : Accept → Output
  to_down_trim : ℕ → Output
  to_clients : Message → Output
  to_acceptor : ℕ → Message → Output

-- `evacceptor_fwd_…` once the source is known: nothing is sent for -1.
unfoldable pub pass_back : ℤ → Message → List Output
pass_back (pos n) m = to_acceptor n m ∷ []
pass_back (negsuc n) m = []

-- The answer of `evacceptor_handle_accept`.
unfoldable pub answer_accept : Option Message → List Output
answer_accept (some (accepted r)) = to_clients (accepted r) ∷ []
answer_accept (some (preempted q)) = to_peer (preempted q) ∷ []
answer_accept _ = []

unfoldable pub answer_prepare : Option Message → List Output
answer_prepare none = []
answer_prepare (some m) = to_peer m ∷ []

-- What `evacceptor_handle_repeat` sends for one instance.
unfoldable pub answer_repeat : Option Accepted → List Output
answer_repeat none = []
answer_repeat (some r) = to_peer (accepted r) ∷ []

module _ (s : StorageApi) where
  -- `evacceptor_handle_prepare`: the request that is passed on has this acceptor as its source.
  unfoldable pub handle_prepare : Acceptor s → Prepare → Option (List Output × Acceptor s)
  unfolding receive_prepare answer_prepare
  handle_prepare a req = do
    (out, a') ← receive_prepare s (int_of_u32 req.src) a req
    some (to_down_prepare (record req { src = a.id % u32_mod }) ∷ answer_prepare out, a')

  -- `evacceptor_handle_accept`
  unfoldable pub handle_accept : Acceptor s → Accept → Option (List Output × Acceptor s)
  unfolding receive_accept answer_accept
  handle_accept a req = do
    (out, a') ← receive_accept s a req
    some (to_down_accept req ∷ answer_accept out, a')

  -- The loop of `evacceptor_handle_repeat` from the instance `iid` on, with fuel: at most so many
  -- tests of its condition. It returns what has been sent till then, and whether the loop has ended.
  unfoldable pub repeat_each : ℕ → ℕ → ℕ → Acceptor s → Option (List Output × Bool × Acceptor s)
  unfolding receive_repeat answer_repeat
  repeat_each zero iid to a = some ([], false, a)
  repeat_each (suc n) iid to a = elim (leb iid to) [
    | false ↦ some ([], true, a)
    | true ↦ (do
      (out, a₁) ← receive_repeat s a iid
      (outs, ended, a₂) ← repeat_each n ((iid + 1) % u32_mod) to a₁
      some (answer_repeat out ++ outs, ended, a₂))
  ]

  -- `evacceptor_handle_repeat`, with a test for each instance and one more; `none` stands here for a
  -- loop that has not ended by then, too.
  unfoldable pub handle_repeat : Acceptor s → Repeat → Option (List Output × Acceptor s)
  unfolding repeat_each
  handle_repeat a req = do
    (outs, ended, a') ← repeat_each (suc (suc req.to - req.from)) req.from req.to a
    if ended then some (outs, a') else none

  -- `evacceptor_handle_trim`
  unfoldable pub handle_trim : Acceptor s → ℕ → List Output × Acceptor s
  unfolding receive_trim
  handle_trim a iid = (to_down_trim iid ∷ [], (receive_trim s a iid).1)

  -- `evacceptor_fwd_promise`
  unfoldable pub fwd_promise : Acceptor s → Accepted → Option (List Output × Acceptor s)
  unfolding get_srcid pass_back
  fwd_promise a p = do (src, a') ← get_srcid s p a; some (pass_back src (promise p), a')

  -- `evacceptor_fwd_accepted`
  unfoldable pub fwd_accepted : Acceptor s → Accepted → Option (List Output × Acceptor s)
  unfolding get_srcid pass_back
  fwd_accepted a r = do (src, a') ← get_srcid s r a; some (pass_back src (accepted r), a')

  -- `evacceptor_fwd_preempted`
  unfoldable pub fwd_preempted : Acceptor s → Preempted → Option (List Output × Acceptor s)
  unfolding get_srcid_preempted pass_back
  fwd_preempted a q = do
    (src, a') ← get_srcid_preempted s q a
    some (pass_back src (preempted q), a')
