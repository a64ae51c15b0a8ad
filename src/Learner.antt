-- ===== src/Learner.antt =====
-- paxos/learner.c over any hash table. A call that faults or fails an `assert` is `none`.
-- `final_value` points into `acks`: it is the index of the record that it points to.
pub mod Votes
pub mod Closing
pub mod Copying
pub mod Update
pub mod Progress
pub mod Delivery
use sciascid_libpaxos_d255f.Base.{
  ℕ, zero, suc, ◌+◌, ◌%◌, u32_mod, Bool, true, false, not, Option, none, some, List, [], ◌∷◌,
  get_elem?, set, replicate, leb, ltb, ◌==◌, if◌then◌else◌, ◌>>=◌, ◌>>◌, ◌&&◌, require,
}
use sciascid_libpaxos_d255f.Types.{Value, Accepted, paxos_quorum}
use sciascid_libpaxos_d255f.Accepted.{null_value, read_ptr, copy_array, copy_each, first}
use sciascid_libpaxos_d255f.KHash.{KHash}

-- `paxos_value_copy` into a zeroed value
unfoldable pub value_copy : Value → Option Value
unfolding read_ptr
value_copy v = elim v.val [
  | none ↦ some (record { len = v.len; val = none })
  | some bs ↦ (do cs ← read_ptr (some bs) v.len; some (record { len = v.len; val = some cs }))
]

unfoldable pub copy_values : ℕ → Option (List Value) → Option (Option (List Value))
unfolding copy_each value_copy
copy_values n none = some none
copy_values n (some vs) = do ws ← copy_each value_copy n vs; some (some ws)

-- `paxos_accepted_dup` and `paxos_accepted_deep_copy`, which are the same code
unfoldable pub accepted_dup : Accepted → Option Accepted
unfolding copy_array copy_values
accepted_dup ack =
    if ltb 0 ack.n_aids
    then (do
      aids' ← copy_array ack.n_aids ack.aids
      values' ← copy_values ack.n_aids ack.values
      ballots' ← copy_array ack.n_aids ack.ballots
      value_ballots' ← copy_array ack.n_aids ack.value_ballots
      some (record ack {
        aids = aids';
        values = values';
        ballots = ballots';
        value_ballots = value_ballots';
        value_0 = null_value;
      }))
    else some (record ack { value_0 = null_value })

-- `struct instance`
pub record Instance : Type 0 where
  pub iid : ℕ
  pub last_update_ballot : ℕ
  pub acks : List (Option Accepted)
  pub final_value : Option ℕ

-- `instance_new`
unfoldable pub instance_new : ℕ → Instance
instance_new acceptors = record {
  iid = 0;
  last_update_ballot = 0;
  acks = replicate acceptors none;
  final_value = none;
}

-- The loop of `instance_has_quorum`: `n` acceptors are left, the next is `i`, and `valid` is
-- `a_valid_index`, `none` for -1.
unfoldable pub tally : ℕ → ℕ → ℕ → List (Option Accepted) → ℕ → Option ℕ → Option (ℕ × Option ℕ)
unfolding first
tally ballot zero i acks count valid = some (count, valid)
tally ballot (suc n) i [] count valid = none
tally ballot (suc n) i (none ∷ acks) count valid = tally ballot n (i + 1) acks count valid
tally ballot (suc n) i (some ack ∷ acks) count valid = do
  b ← first ack.ballots
  tally ballot n (i + 1) acks (if b == ballot then count + 1 else count)
      (if b == ballot then some i else valid)

-- The end of `instance_has_quorum`.
unfoldable pub close : Instance → ℕ → ℕ × Option ℕ → Option (Bool × Instance)
unfolding paxos_quorum
close inst acceptors (count, valid) =
    if leb (paxos_quorum acceptors) count
    then (do i ← valid; some (true, record inst { final_value = some i }))
    else some (false, inst)

-- `instance_has_quorum`, which may close the instance
unfoldable pub has_quorum : Instance → ℕ → Option (Bool × Instance)
unfolding tally close
has_quorum inst acceptors = elim inst.final_value [
  | some i ↦ some (true, inst)
  | none ↦ (do
    counted ← tally inst.last_update_ballot acceptors 0 inst.acks 0 none
    close inst acceptors counted)
]

-- `instance_add_accept`
unfoldable pub add_accept : Instance → Accepted → Option Instance
unfolding accepted_dup first
add_accept inst ack = do
  aid ← first ack.aids
  _ ← get_elem? inst.acks aid
  copy ← accepted_dup ack
  ballot ← first ack.ballots
  some (record inst { acks = set inst.acks aid (some copy); last_update_ballot = ballot })

-- The end of `instance_update`: whether the previous record of the acceptor is older.
unfoldable pub replace_older : Instance → Accepted → Option Accepted → Option Instance
unfolding add_accept first
replace_older inst ack none = add_accept inst ack
replace_older inst ack (some prev) = do
  old ← first prev.ballots
  ballot ← first ack.ballots
  if leb ballot old then some inst else add_accept inst ack

-- The start of `instance_update`: the first message names the instance.
unfoldable pub name_instance : Instance → Accepted → Option Instance
unfolding first
name_instance inst ack =
    if inst.iid == 0
    then (do
      ballot ← first ack.ballots
      some (record inst { iid = ack.iid; last_update_ballot = ballot }))
    else some inst

-- `instance_update`
unfoldable pub instance_update : Instance → Accepted → ℕ → Option Instance
unfolding name_instance has_quorum replace_older first
instance_update inst ack acceptors = do
  named ← name_instance inst ack
  (closed, inst') ← has_quorum named acceptors
  if closed
      then some inst'
      else (do aid ← first ack.aids; prev ← get_elem? inst'.acks aid; replace_older inst' ack prev)

module _ (table : KHash Instance) where
  open table use {Table}

  -- `struct learner`
  pub record Learner : Type 0 where
    pub acceptors : ℕ
    pub late_start : Bool
    pub current_iid : ℕ
    pub highest_iid_closed : ℕ
    pub instances : Table

  -- `learner_new`, with `paxos_config.learner_catch_up`
  unfoldable pub new : ℕ → Bool → Learner
  new acceptors catch_up = record {
    acceptors = acceptors;
    late_start = not catch_up;
    current_iid = 1;
    highest_iid_closed = 1;
    instances = table.init;
  }

  -- `learner_set_instance_id`
  unfoldable pub set_instance_id : Learner → ℕ → Learner
  set_instance_id l iid = record l { current_iid = (iid + 1) % u32_mod; highest_iid_closed = iid }

  -- `learner_get_instance_or_create`
  unfoldable pub get_or_create : Learner → ℕ → Option Instance
  unfolding instance_new
  get_or_create l iid = elim (table.get l.instances iid) [
    | some inst ↦ some inst
    | none ↦ (do require (not (table.no_memory l.instances iid)); some (instance_new l.acceptors))
  ]

  -- `learner_receive_accepted` for an instance that is not delivered yet
  unfoldable pub receive_open : Learner → Accepted → Option Learner
  unfolding get_or_create instance_update has_quorum
  receive_open l ack = do
    inst ← get_or_create l ack.iid
    updated ← instance_update inst ack l.acceptors
    (closed, inst') ← has_quorum updated l.acceptors
    some (record l {
      instances = table.put l.instances ack.iid inst';
      highest_iid_closed =
          if closed && ltb l.highest_iid_closed inst'.iid then inst'.iid else l.highest_iid_closed;
    })

  -- `learner_receive_accepted` behind the test of `late_start`
  unfoldable pub receive_started : Learner → Accepted → Option Learner
  unfolding receive_open
  receive_started l ack = if ltb ack.iid l.current_iid then some l else receive_open l ack

  -- `learner_receive_accepted`
  unfoldable pub receive_accepted : Learner → Accepted → Option Learner
  unfolding receive_started
  receive_accepted l ack =
      receive_started
        (if l.late_start then record l { late_start = false; current_iid = ack.iid } else l) ack

  -- `learner_deliver_next` with the current instance
  unfoldable pub deliver_instance : Learner → Instance → Option (Option Accepted × Learner)
  unfolding has_quorum accepted_dup
  deliver_instance l inst = do
    (closed, inst') ← has_quorum inst l.acceptors
    if closed
        then (do
          i ← inst'.final_value
          final ← get_elem? inst'.acks i
          ack ← final
          out ← accepted_dup ack
          some (
            some out,
            record l {
              instances = table.del l.instances inst'.iid;
              current_iid = (l.current_iid + 1) % u32_mod;
            },
          ))
        else some (none, record l { instances = table.put l.instances l.current_iid inst' })

  -- `learner_deliver_next`; the answer is `out` where the code returns 1.
  unfoldable pub deliver_next : Learner → Option (Option Accepted × Learner)
  unfolding deliver_instance
  deliver_next l = elim (table.get l.instances l.current_iid) [
    | none ↦ some (none, l)
    | some inst ↦ deliver_instance l inst
  ]

  -- `learner_has_holes`; the answer is `from` and `to` where the code returns 1.
  unfoldable pub has_holes : Learner → Option (ℕ × ℕ)
  has_holes l =
      if ltb l.current_iid l.highest_iid_closed
      then some (l.current_iid, l.highest_iid_closed)
      else none
