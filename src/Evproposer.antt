-- ===== src/Evproposer.antt =====
-- evpaxos/evproposer.c: what a proposer does with each message. What is sent is a list of messages,
-- each of which `peers_foreach_acceptor` sends to every acceptor. `clock` and `later` are what
-- `gettimeofday` gives while a message is received and behind that.
-- `evproposer_check_timeouts` returns at once.
pub mod Requests
pub mod Looping
pub mod Opening
use sciascid_libpaxos_d255f.Base.{
  ℕ, zero, suc, ◌+◌, ◌-◌, Bool, ℤ, pos, negsuc, Option, none, some, List, [], ◌∷◌, ◌++◌, length,
  if◌then◌else◌, ◌>>=◌,
}
use sciascid_libpaxos_d255f.Types.{
  Value, Prepare, Accept, Accepted, Preempted, AcceptorState, Message,
}
use sciascid_libpaxos_d255f.Accepted.{first}
use sciascid_libpaxos_d255f.KHash.{KHash}
use sciascid_libpaxos_d255f.Proposer.{
  Instance, Timeval, Proposer, proposer_new, propose, prepare, receive_promise,
}
use sciascid_libpaxos_d255f.Proposer.Accepts.{
  accept, receive_accepted, receive_preempted, set_next_iid, receive_acceptor_state, no_values,
}

-- How many instances `proposer_preexecute` opens when `count` are open: none if that is not positive.
unfoldable pub missing : ℤ → ℕ → ℕ
missing (pos window) count = window - count
missing (negsuc n) count = 0

-- `if (preempted) peers_foreach_acceptor(…)`
unfoldable pub ask_again : Option Prepare → List Message
ask_again none = []
ask_again (some r) = Message.prepare r ∷ []

module _ (table : KHash Instance) (junk : Value) where
  open table use {Table}

  -- `struct evproposer`
  pub record Evproposer : Type 0 where
    pub id : ℕ
    pub preexec_window : ℤ
    pub state : Proposer table junk

  -- `evproposer_init_internal`, with `paxos_config.proposer_preexec_window`
  unfoldable pub init_internal : ℕ → ℤ → ℕ → Evproposer
  unfolding proposer_new
  init_internal id window acceptors = record {
    id = id;
    preexec_window = window;
    state = proposer_new table junk id acceptors;
  }

  -- `proposer_prepared_count`
  unfoldable pub prepared_count : Proposer table junk → ℕ
  prepared_count s = table.size s.prepare_instances

  -- The loop of `proposer_preexecute`, with `n` rounds left.
  unfoldable pub prepare_each :
      ℕ → (ℕ → Timeval) → ℕ → Proposer table junk → Option (List Message × Proposer table junk)
  unfolding prepare
  prepare_each zero clock i s = some ([], s)
  prepare_each (suc n) clock i s = do
    (r, s₁) ← prepare table junk s (clock i)
    (sent, s₂) ← prepare_each n clock (i + 1) s₁
    some (Message.prepare r ∷ sent, s₂)

  -- `proposer_preexecute`, also as `evproposer_preexec_once`
  unfoldable pub preexecute : Evproposer → (ℕ → Timeval) → Option (List Message × Evproposer)
  unfolding missing prepared_count prepare_each no_values
  preexecute p clock = if no_values table junk p.state then some ([], p) else (do
    (sent, s) ← prepare_each (missing p.preexec_window (prepared_count p.state)) clock 0 p.state
    some (sent, record p { state = s }))

  -- The loop of `try_accept`, with fuel: at most so many calls of `proposer_accept`.
  unfoldable pub accept_each : ℕ → Proposer table junk → Option (List Accept × Proposer table junk)
  unfolding accept
  accept_each zero s = none
  accept_each (suc n) s = do
    (out, s₁) ← accept table junk s
    elim out [ none ↦ some ([], s₁) | some r ↦ (do (rs, s₂) ← accept_each n s₁; some (r ∷ rs, s₂)) ]

  abbrev pub requests : List Accept → List Message
  requests [] = []
  requests (r ∷ rs) = Message.accept r ∷ requests rs

  -- `try_accept`: every request takes an instance out of the first table, and the last call sends
  -- none.
  unfoldable pub try_accept : Evproposer → (ℕ → Timeval) → Option (List Message × Evproposer)
  unfolding accept_each preexecute
  try_accept p clock = do
    (rs, s) ← accept_each (suc (length (table.keys p.state.prepare_instances))) p.state
    (sent, p') ← preexecute (record p { state = s }) clock
    some (requests rs ++ sent, p')

  -- `evproposer_handle_promise`, which reads `aids[0]` for its log
  unfoldable pub handle_promise :
      Evproposer → (ℕ → Timeval) → (ℕ → Timeval) → Accepted → Option (List Message × Evproposer)
  unfolding receive_promise ask_again try_accept first
  handle_promise p clock later pro = do
    (out, s) ← receive_promise table junk p.state clock pro
    _ ← first pro.aids
    (sent, p') ← try_accept (record p { state = s }) later
    some (ask_again out ++ sent, p')

  -- `evproposer_handle_accepted`
  unfoldable pub handle_accepted :
      Evproposer → (ℕ → Timeval) → Accepted → Option (List Message × Evproposer)
  unfolding receive_accepted try_accept
  handle_accepted p later acc = do
    (new, s) ← receive_accepted table junk p.state acc
    if new then try_accept (record p { state = s }) later else some ([], record p { state = s })

  -- `evproposer_handle_preempted`
  unfoldable pub handle_preempted :
      Evproposer → Timeval → (ℕ → Timeval) → Preempted → Option (List Message × Evproposer)
  unfolding receive_preempted try_accept
  handle_preempted p now later msg = do
    (out, s) ← receive_preempted table junk p.state msg now
    elim out [
      | none ↦ some ([], record p { state = s })
      | some r ↦ (do
        (sent, p') ← try_accept (record p { state = s }) later
        some (Message.prepare r ∷ sent, p'))
    ]

  -- `evproposer_handle_client_value`
  unfoldable pub handle_client_value :
      Evproposer → (ℕ → Timeval) → Value → Option (List Message × Evproposer)
  unfolding propose try_accept
  handle_client_value p later v = do
    s ← propose table junk p.state (elim v.val [ none ↦ [] | some bs ↦ bs ]) v.len
    try_accept (record p { state = s }) later

  -- `evproposer_handle_acceptor_state`
  unfoldable pub handle_acceptor_state : Evproposer → AcceptorState → Option Evproposer
  unfolding receive_acceptor_state
  handle_acceptor_state p msg = do
    s ← receive_acceptor_state table junk p.state msg
    some (record p { state = s })

  -- `evproposer_set_instance_id`, of a proposer that may be NULL
  unfoldable pub set_instance_id : Option Evproposer → ℕ → Option (Option Evproposer)
  unfolding set_next_iid
  set_instance_id none iid = some none
  set_instance_id (some p) iid = do
    s ← set_next_iid table junk p.state iid
    some (some (record p { state = s }))
