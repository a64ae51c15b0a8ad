-- ===== src/Proposer/Accepts.antt =====
-- paxos/proposer.c: the second phase, preemption and trimming.
use sciascid_libpaxos_d255f.Base.{
  ℕ, Bool, true, false, not, Option, none, some, List, [], ◌∷◌, leb, ltb, ◌==◌, if◌then◌else◌,
  ◌>>=◌, ◌>>◌, ◌&&◌, require,
}
use sciascid_libpaxos_d255f.Types.{Value, Prepare, Accept, Accepted, Preempted, AcceptorState}
use sciascid_libpaxos_d255f.Accepted.{read_ptr, first}
use sciascid_libpaxos_d255f.Carray.{Carray, empty, push_back, pop_front}
use sciascid_libpaxos_d255f.Quorum
use sciascid_libpaxos_d255f.Quorum.{Quorum, reached}
use sciascid_libpaxos_d255f.KHash.{KHash}
use sciascid_libpaxos_d255f.Proposer.{Instance, Timeval, Proposer, preempt, to_prepare, is_free}

-- `instance_has_value` and `instance_has_promised_value`
unfoldable pub has_pointer : Option Value → Bool
has_pointer none = false
has_pointer (some v) = true

-- The value that `instance_to_accept` takes; it faults if there is none.
unfoldable pub to_accept : ℕ → Instance → Option Accept
to_accept id inst = do
  v ← elim inst.promised_value [ none ↦ inst.value | some v ↦ some v ]
  some (record { src = id; iid = inst.iid; ballot = inst.ballot; value = v })

-- Whether `memcmp` answers 0.
unfoldable pub same_bytes : List ℕ → List ℕ → Bool
same_bytes [] [] = true
same_bytes [] (y ∷ ys) = false
same_bytes (x ∷ xs) [] = false
same_bytes (x ∷ xs) (y ∷ ys) = (x == y) && same_bytes xs ys

-- Whether `paxos_value_cmp` answers 0.
unfoldable pub same_value : Value → Value → Option Bool
unfolding same_bytes read_ptr
same_value v w =
    if v.len == w.len
    then (do bs ← read_ptr v.val v.len; cs ← read_ptr w.val v.len; some (same_bytes bs cs))
    else some false

module _ (table : KHash Instance) (junk : Value) where
  open table use {Table}

  -- The loop of `proposer_accept` over the instances: the smallest `iid` so far.
  unfoldable pub smallest : Table → List ℕ → Option Instance → Option Instance
  smallest t [] best = best
  smallest t (k ∷ ks) best = smallest t ks (elim (table.get t k) [
    | none ↦ best
    | some inst ↦ elim best [
      | none ↦ some inst
      | some b ↦ if ltb inst.iid b.iid then some inst else some b
    ]
  ])

  -- `proposer_move_instance` from the table `f` to the table `t`
  unfoldable pub move_instance : Table → Table → Instance → Option (Table × Table × Instance)
  unfolding is_free Quorum.clear
  move_instance f t inst = do
    require (not (is_free (table.get f inst.iid)))
    require (not (table.no_memory t inst.iid))
    require (is_free (table.get t inst.iid))
    let moved = record inst { quorum = Quorum.clear inst.quorum }
    some (table.del f inst.iid, table.put t inst.iid moved, moved)

  -- `proposer_accept` once the instance has its value
  unfoldable pub accept_valued :
      Proposer table junk → Instance → Option (Option Accept × Proposer table junk)
  unfolding move_instance to_accept has_pointer
  accept_valued p inst =
      if not (has_pointer inst.value) && not (has_pointer inst.promised_value)
      then some (none, record p { prepare_instances = table.put p.prepare_instances inst.iid inst })
      else (do
        (f, t, moved) ← move_instance p.prepare_instances p.accept_instances inst
        out ← to_accept p.id moved
        some (some out, record p { prepare_instances = f; accept_instances = t }))

  -- `proposer_accept` with the instance that it has found
  unfoldable pub accept_prepared :
      Proposer table junk → Instance → Option (Option Accept × Proposer table junk)
  unfolding accept_valued has_pointer
  accept_prepared p inst = if has_pointer inst.value then accept_valued p inst else (do
    (v, values') ← pop_front p.values
    accept_valued (record p { values = values' }) (record inst { value = v }))

  -- `proposer_accept`; the request is `some` where the code returns 1.
  unfoldable pub accept : Proposer table junk → Option (Option Accept × Proposer table junk)
  unfolding smallest accept_prepared reached
  accept p = elim (smallest p.prepare_instances (table.keys p.prepare_instances) none) [
    | none ↦ some (none, p)
    | some inst ↦ if reached inst.quorum then accept_prepared p inst else some (none, p)
  ]

  -- The client's value goes back to the queue if another value was chosen.
  unfoldable pub give_back : Proposer table junk → Instance → Option (Proposer table junk)
  unfolding same_value push_back
  give_back p inst = elim inst.promised_value [
    | none ↦ some p
    | some w ↦ elim inst.value [
      | none ↦ some p
      | some v ↦ (do
        same ← same_value v w
        if same
            then some p
            else (do values' ← push_back junk p.values v; some (record p { values = values' })))
    ]
  ]

  -- `proposer_receive_accepted` for an instance that waits for it
  unfoldable pub count_accepted :
      Proposer table junk → Accepted → Instance → Option (Bool × Proposer table junk)
  unfolding give_back Quorum.add reached first
  count_accepted p ack inst = do
    ballot ← first ack.ballots
    if ballot == inst.ballot
        then (do
          aid ← first ack.aids
          (fresh, q) ← Quorum.add inst.quorum aid
          if fresh
              then (if reached q
                  then (do
                    p' ← give_back p inst
                    some (
                      true,
                      record p' { accept_instances = table.del p.accept_instances ack.iid },
                    ))
                  else some (
                    true,
                    record p {
                      accept_instances =
                          table.put p.accept_instances ack.iid (record inst { quorum = q });
                    },
                  ))
              else some (false, p))
        else some (false, p)

  -- `proposer_receive_accepted`
  unfoldable pub receive_accepted :
      Proposer table junk → Accepted → Option (Bool × Proposer table junk)
  unfolding count_accepted
  receive_accepted p ack = elim (table.get p.accept_instances ack.iid) [
    | none ↦ some (false, p)
    | some inst ↦ count_accepted p ack inst
  ]

  -- `proposer_receive_preempted`; the request is `some` where the code returns 1.
  unfoldable pub receive_preempted :
      Proposer table junk → Preempted → Timeval → Option (Option Prepare × Proposer table junk)
  unfolding move_instance preempt to_prepare
  receive_preempted p ack now = elim (table.get p.accept_instances ack.iid) [
    | none ↦ some (none, p)
    | some inst ↦
        if ltb inst.ballot ack.ballot
        then (do
          (f, t, moved) ← move_instance p.accept_instances p.prepare_instances inst
          let inst' = preempt p.id moved now
          some (
            some (to_prepare p.id inst'),
            record p { accept_instances = f; prepare_instances = table.put t inst'.iid inst' },
          ))
        else some (none, p)
  ]

  -- The loop of `proposer_trim_instances` at one key of the table: the queue and the table.
  unfoldable pub trim_instance : ℕ → ℕ → Carray Value × Table → Option (Carray Value × Table)
  unfolding push_back
  trim_instance iid k (values, t) = elim (table.get t k) [
    | none ↦ some (values, t)
    | some inst ↦
        if leb inst.iid iid
        then elim inst.value [
          | none ↦ some (values, table.del t k)
          | some v ↦ (do values' ← push_back junk values v; some (values', table.del t k))
        ]
        else some (values, t)
  ]

  -- `proposer_trim_instances` over the keys that are left
  unfoldable pub trim_instances : ℕ → List ℕ → Carray Value × Table → Option (Carray Value × Table)
  unfolding trim_instance
  trim_instances iid [] s = some s
  trim_instances iid (k ∷ ks) s = do s' ← trim_instance iid k s; trim_instances iid ks s'

  -- `proposer_set_instance_id`
  unfoldable pub set_next_iid : Proposer table junk → ℕ → Option (Proposer table junk)
  unfolding trim_instances
  set_next_iid p iid =
      if ltb p.next_prepare_iid iid
      then (do
        (values₁, prepares) ←
            trim_instances iid (table.keys p.prepare_instances) (p.values, p.prepare_instances)
        (values₂, accepts) ←
            trim_instances iid (table.keys p.accept_instances) (values₁, p.accept_instances)
        some (record p {
          next_prepare_iid = iid;
          values = values₂;
          prepare_instances = prepares;
          accept_instances = accepts;
        }))
      else some p

  -- `proposer_receive_acceptor_state`
  unfoldable pub receive_acceptor_state :
      Proposer table junk → AcceptorState → Option (Proposer table junk)
  unfolding set_next_iid
  receive_acceptor_state p state =
      if ltb p.max_trim_iid state.trim_iid
      then set_next_iid (record p { max_trim_iid = state.trim_iid }) state.trim_iid
      else some p

  -- `proposer_no_values`
  unfoldable pub no_values : Proposer table junk → Bool
  no_values p = empty p.values
