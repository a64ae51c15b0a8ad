-- ===== src/Types.antt =====
-- paxos/include/paxos_types.h and the core functions of paxos/paxos.c. A pointer to an array is
-- the array's contents, `none` for NULL; a number is a `uint32_t` unless it is said otherwise.
use sciascid_libpaxos_d255f.Base.{ℕ, ◌+◌, ◌/◌, Option, List}

-- `paxos_value`; `len` is an `int` that the code never makes negative.
pub record Value : Type 0 where
  pub len : ℕ
  pub val : Option (List ℕ)

-- `paxos_prepare`
pub record Prepare : Type 0 where
  pub src : ℕ
  pub iid : ℕ
  pub ballot : ℕ

-- `paxos_accepted`, and `paxos_promise`, which has the same fields
pub record Accepted : Type 0 where
  pub src : ℕ
  pub iid : ℕ
  pub ballot_0 : ℕ
  pub value_ballot_0 : ℕ
  pub n_aids : ℕ
  pub aids : Option (List ℕ)
  pub value_0 : Value
  pub values : Option (List Value)
  pub ballots : Option (List ℕ)
  pub value_ballots : Option (List ℕ)

-- `paxos_accept`
pub record Accept : Type 0 where
  pub src : ℕ
  pub iid : ℕ
  pub ballot : ℕ
  pub value : Value

-- `paxos_preempted`
pub record Preempted : Type 0 where
  pub aid : ℕ
  pub iid : ℕ
  pub ballot : ℕ

-- `paxos_acceptor_state`
pub record AcceptorState : Type 0 where
  pub aid : ℕ
  pub trim_iid : ℕ

-- `paxos_repeat`
pub record Repeat : Type 0 where
  pub from : ℕ
  pub to : ℕ

-- `paxos_message`, with the `iid` of a `paxos_trim` and the value of a `paxos_client_value`
pub data Message : Type 0 where
  prepare : Prepare → Message
  promise : Accepted → Message
  accept : Accept → Message
  accepted : Accepted → Message
  preempted : Preempted → Message
  repeat : Repeat → Message
  trim : ℕ → Message
  acceptor_state : AcceptorState → Message
  client_value : Value → Message

-- `paxos_quorum`
unfoldable pub paxos_quorum : ℕ → ℕ
paxos_quorum acceptors = acceptors / 2 + 1
