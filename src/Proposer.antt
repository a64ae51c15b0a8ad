-- ===== src/Proposer.antt =====
-- paxos/proposer.c over any hash table: the instances, their ballots and the first phase. A call
-- that faults or fails an `assert` is `none`. `clock` is what `gettimeofday` gives at each of its
-- calls within one call of the proposer; `junk` is what `malloc` leaves in a cell of an array.
pub mod Accepts
pub mod Timeouts
pub mod Ballots
pub mod Counting
pub mod Promising
pub mod Promises
pub mod Proposing
pub mod Accepting
pub mod Trimming
use sciascid_libpaxos_d255f.Base.{
  ℕ, zero, suc, ◌+◌, ◌%◌, u32_mod, Bool, true, false, not, Option, none, some, List, [], ◌∷◌,
  get_elem?, leb, ltb, ◌==◌, if◌then◌else◌, ◌>>=◌, ◌>>◌, ◌&&◌, require,
}
use sciascid_libpaxos_d255f.Types.{Value, Prepare, Accepted}
use sciascid_libpaxos_d255f.Accepted.{read_ptr}
use sciascid_libpaxos_d255f.Carray.{Carray, new, push_back}
use sciascid_libpaxos_d255f.Quorum
use sciascid_libpaxos_d255f.Quorum.{Quorum}
use sciascid_libpaxos_d255f.KHash.{KHash}

-- `MAX_N_OF_PROPOSERS`
abbrev pub max_proposers : ℕ
max_proposers = 1000

-- `struct timeval`
pub record Timeval : Type 0 where
  pub tv_sec : ℕ
  pub tv_usec : ℕ

-- `struct instance`; a value that is freed is `none`.
pub record Instance : Type 0 where
  pub iid : ℕ
  pub ballot : ℕ
  pub value : Option Value
  pub promised_value : Option Value
  pub value_ballot : ℕ
  pub quorum : Quorum
  pub created_at : Timeval

-- `proposer_next_ballot` of the proposer `id`
unfoldable pub next_ballot : ℕ → ℕ → ℕ
next_ballot id b = if ltb 0 b then (max_proposers + b) % u32_mod else (max_proposers + id) % u32_mod

-- `paxos_value_new`
unfoldable pub value_new : Option (List ℕ) → ℕ → Option Value
unfolding read_ptr
value_new bytes size = do bs ← read_ptr bytes size; some (record { len = size; val = some bs })

-- `instance_new`
unfoldable pub instance_new : ℕ → ℕ → ℕ → Timeval → Option Instance
unfolding Quorum.init
instance_new iid ballot acceptors now = do
  require (ltb 0 iid)
  some (record {
    iid = iid;
    ballot = ballot;
    value = none;
    promised_value = none;
    value_ballot = 0;
    quorum = Quorum.init acceptors;
    created_at = now;
  })

-- `proposer_preempt`, without the request that it fills in
unfoldable pub preempt : ℕ → Instance → Timeval → Instance
unfolding next_ballot Quorum.clear
preempt id inst now = record inst {
  ballot = next_ballot id inst.ballot;
  value_ballot = 0;
  promised_value = none;
  quorum = Quorum.clear inst.quorum;
  created_at = now;
}

-- `(paxos_prepare) {p->id, inst->iid, inst->ballot}`
unfoldable pub to_prepare : ℕ → Instance → Prepare
to_prepare id inst = record { src = id; iid = inst.iid; ballot = inst.ballot }

-- Whether `kh_put` finds the key free: its result is positive then.
unfoldable pub is_free {ℓ} : {A : Type ℓ} → Option A → Bool
is_free none = true
is_free (some a) = false

-- `p[i]`
unfoldable pub at {ℓ} : {A : Type ℓ} → Option (List A) → ℕ → Option A
at none i = none
at (some xs) i = get_elem? xs i

-- The value of a promise, in `proposer_receive_promise`: it is kept if its ballot is larger.
unfoldable pub keep_value : Instance → Value → ℕ → Option Instance
unfolding value_new
keep_value inst v b =
    if ltb 0 v.len
    then (if ltb inst.value_ballot b
        then (do
          copy ← value_new v.val v.len
          some (record inst { value_ballot = b; promised_value = some copy }))
        else some inst)
    else some inst

-- A promise of the instance's own ballot, from the acceptor `aid`.
unfoldable pub count_promise : Instance → ℕ → Value → ℕ → Option Instance
unfolding keep_value Quorum.add
count_promise inst aid v b = do
  (_, q) ← Quorum.add inst.quorum aid
  keep_value (record inst { quorum = q }) v b

-- One round of the loop of `proposer_receive_promise`, at index `i`; the request is `some` where
-- the loop has filled it in and set `rc` to 1.
unfoldable pub promise_round :
    ℕ
    → (ℕ → Timeval)
    → Accepted
    → ℕ
    → Instance × Option Prepare
    → Option (Instance × Option Prepare)
unfolding preempt to_prepare count_promise at
promise_round id clock ack i (inst, out) = do
  ballot ← at ack.ballots i
  if ltb ballot inst.ballot
      then some (inst, out)
      else (if ltb inst.ballot ballot
          then some (preempt id inst (clock i), some (to_prepare id (preempt id inst (clock i))))
          else (do
            aid ← at ack.aids i
            v ← at ack.values i
            value_ballot ← if ltb 0 v.len then at ack.value_ballots i else some 0
            inst' ← count_promise inst aid v value_ballot
            some (inst', out)))

-- The loop from index `i` on, with `n` rounds left.
unfoldable pub promise_rounds :
    ℕ
    → (ℕ → Timeval)
    → Accepted
    → ℕ
    → ℕ
    → Instance × Option Prepare
    → Option (Instance × Option Prepare)
unfolding promise_round
promise_rounds id clock ack i zero s = some s
promise_rounds id clock ack i (suc n) s = do
  s' ← promise_round id clock ack i s
  promise_rounds id clock ack (i + 1) n s'

module _ (table : KHash Instance) (junk : Value) where
  open table use {Table}

  -- `struct proposer`
  pub record Proposer : Type 0 where
    pub id : ℕ
    pub acceptors : ℕ
    pub values : Carray Value
    pub max_trim_iid : ℕ
    pub next_prepare_iid : ℕ
    pub prepare_instances : Table
    pub accept_instances : Table

  -- `proposer_new`
  unfoldable pub proposer_new : ℕ → ℕ → Proposer
  unfolding new
  proposer_new id acceptors = record {
    id = id;
    acceptors = acceptors;
    values = new junk 128;
    max_trim_iid = 0;
    next_prepare_iid = 0;
    prepare_instances = table.init;
    accept_instances = table.init;
  }

  -- `proposer_propose`
  unfoldable pub propose : Proposer → List ℕ → ℕ → Option Proposer
  unfolding value_new push_back
  propose p bytes size = do
    v ← value_new (some bytes) size
    values' ← push_back junk p.values v
    some (record p { values = values' })

  -- `proposer_prepare`; `kh_put` has to find the key free.
  unfoldable pub prepare : Proposer → Timeval → Option (Prepare × Proposer)
  unfolding next_ballot instance_new to_prepare is_free
  prepare p now = do
    let iid = (p.next_prepare_iid + 1) % u32_mod
    inst ← instance_new iid (next_ballot p.id 0) p.acceptors now
    require (not (table.no_memory p.prepare_instances iid))
    require (is_free (table.get p.prepare_instances iid))
    some (
      to_prepare p.id inst,
      record p {
        next_prepare_iid = iid;
        prepare_instances = table.put p.prepare_instances iid inst;
      },
    )

  -- `proposer_receive_promise`; the request is `some` where the code returns 1.
  unfoldable pub receive_promise :
      Proposer → (ℕ → Timeval) → Accepted → Option (Option Prepare × Proposer)
  unfolding promise_rounds
  receive_promise p clock ack = elim (table.get p.prepare_instances ack.iid) [
    | none ↦ some (none, p)
    | some inst ↦ (do
      (inst', out) ← promise_rounds p.id clock ack 0 ack.n_aids (inst, none)
      some (out, record p { prepare_instances = table.put p.prepare_instances ack.iid inst' }))
  ]
