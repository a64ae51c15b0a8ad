-- ===== src/Pack/Unpack.antt =====
-- evpaxos/paxos_types_pack.c: the readers. What a reader does not write is as in a message that
-- `on_read` of evpaxos/peers.c has set to zero.
use sciascid_libpaxos_d255f.Base.{
  ℕ, zero, suc, ◌-◌, ◌%◌, u32_mod, Bool, true, false, Option, none, some, List, [], ◌∷◌, length,
  ◌==◌, if◌then◌else◌, ◌>>=◌, not,
}
use sciascid_libpaxos_d255f.Types.{
  Value, Prepare, Accept, Accepted, Preempted, Repeat, AcceptorState, Message,
}
use sciascid_libpaxos_d255f.Accepted.{null_value}
use sciascid_libpaxos_d255f.Msgpack.{Object, uint, bin}

-- What reads an element reads the first of those that are left.
abbrev pub Reader {ℓ} : Type ℓ → Type ℓ
Reader A = List Object → Option (A × List Object)

-- `msgpack_unpack_uint32_at`
unfoldable pub uint32_at : Reader ℕ
uint32_at [] = none
uint32_at (uint n ∷ os) = some (n % u32_mod, os)
uint32_at (bin bs ∷ os) = none

-- `msgpack_unpack_paxos_value_at`, with `msgpack_unpack_string_at`
unfoldable pub value_at : Reader Value
value_at [] = none
value_at (uint n ∷ os) = none
value_at (bin [] ∷ os) = some (null_value, os)
value_at (bin (b ∷ bs) ∷ os) = some (record { len = length (b ∷ bs); val = some (b ∷ bs) }, os)

-- A loop that reads `n` elements into an array.
unfoldable pub many {ℓ} : {A : Type ℓ} → ℕ → Reader A → Reader (List A)
many zero r os = some ([], os)
many (suc n) r os = do (x, os₁) ← r os; (xs, os₂) ← many n r os₁; some (x ∷ xs, os₂)

-- `if (b) { … } else … = NULL;` around such a loop
unfoldable pub many_if {ℓ} : {A : Type ℓ} → Bool → ℕ → Reader A → Reader (Option (List A))
unfolding many
many_if true n r os = do (xs, os₁) ← many n r os; some (some xs, os₁)
many_if false n r os = some (none, os)

-- `msgpack_unpack_paxos_prepare`; the readers start behind the element of the type.
unfoldable pub unpack_prepare : List Object → Option Prepare
unfolding uint32_at
unpack_prepare os = do
  (src, os₁) ← uint32_at os
  (iid, os₂) ← uint32_at os₁
  (ballot, _) ← uint32_at os₂
  some (record { src = src; iid = iid; ballot = ballot })

-- `msgpack_unpack_paxos_promise`
unfoldable pub unpack_promise : List Object → Option Accepted
unfolding uint32_at value_at many
unpack_promise os = do
  (src, os₁) ← uint32_at os
  (iid, os₂) ← uint32_at os₁
  (ballot_0, os₃) ← uint32_at os₂
  (value_ballot_0, os₄) ← uint32_at os₃
  (n_aids, os₅) ← uint32_at os₄
  (value_0, os₆) ← value_at os₅
  (aids, os₇) ← many n_aids uint32_at os₆
  (values, os₈) ← many n_aids value_at os₇
  (ballots, os₉) ← many n_aids uint32_at os₈
  (value_ballots, _) ← many n_aids uint32_at os₉
  some (record {
    src = src;
    iid = iid;
    ballot_0 = ballot_0;
    value_ballot_0 = value_ballot_0;
    n_aids = n_aids;
    aids = some aids;
    value_0 = value_0;
    values = some values;
    ballots = some ballots;
    value_ballots = some value_ballots;
  })

-- `msgpack_unpack_paxos_accept`
unfoldable pub unpack_accept : List Object → Option Accept
unfolding uint32_at value_at
unpack_accept os = do
  (src, os₁) ← uint32_at os
  (iid, os₂) ← uint32_at os₁
  (ballot, os₃) ← uint32_at os₂
  (value, _) ← value_at os₃
  some (record { src = src; iid = iid; ballot = ballot; value = value })

-- `msgpack_unpack_paxos_accepted`; the source is read and then set to -1.
unfoldable pub unpack_accepted : List Object → Option Accepted
unfolding uint32_at value_at many_if
unpack_accepted os = do
  (_, os₁) ← uint32_at os
  (iid, os₂) ← uint32_at os₁
  (n_aids, os₃) ← uint32_at os₂
  (is_aids, os₄) ← uint32_at os₃
  (is_values, os₅) ← uint32_at os₄
  (aids, os₆) ← many_if (not (is_aids == 0)) n_aids uint32_at os₅
  (values, os₇) ← many_if (not (is_values == 0)) n_aids value_at os₆
  (ballots, os₈) ← many_if (not (is_aids == 0)) n_aids uint32_at os₇
  (value_ballots, _) ← many_if (not (is_aids == 0)) n_aids uint32_at os₈
  some (record {
    src = u32_mod - 1;
    iid = iid;
    ballot_0 = 0;
    value_ballot_0 = 0;
    n_aids = n_aids;
    aids = aids;
    value_0 = null_value;
    values = values;
    ballots = ballots;
    value_ballots = value_ballots;
  })

-- `msgpack_unpack_paxos_preempted`
unfoldable pub unpack_preempted : List Object → Option Preempted
unfolding uint32_at
unpack_preempted os = do
  (aid, os₁) ← uint32_at os
  (iid, os₂) ← uint32_at os₁
  (ballot, _) ← uint32_at os₂
  some (record { aid = aid; iid = iid; ballot = ballot })

-- `msgpack_unpack_paxos_repeat`
unfoldable pub unpack_repeat : List Object → Option Repeat
unfolding uint32_at
unpack_repeat os = do
  (from, os₁) ← uint32_at os
  (to, _) ← uint32_at os₁
  some (record { from = from; to = to })

-- `msgpack_unpack_paxos_trim`
unfoldable pub unpack_trim : List Object → Option ℕ
unfolding uint32_at
unpack_trim os = do (iid, _) ← uint32_at os; some iid

-- `msgpack_unpack_paxos_acceptor_state`
unfoldable pub unpack_acceptor_state : List Object → Option AcceptorState
unfolding uint32_at
unpack_acceptor_state os = do
  (aid, os₁) ← uint32_at os
  (trim_iid, _) ← uint32_at os₁
  some (record { aid = aid; trim_iid = trim_iid })

-- `msgpack_unpack_paxos_client_value`
unfoldable pub unpack_client_value : List Object → Option Value
unfolding value_at
unpack_client_value os = do (value, _) ← value_at os; some value

-- The switch of `msgpack_unpack_paxos_message`; an unknown type is a call of NULL.
unfoldable pub unpack_type : ℕ → List Object → Option Message
unfolding unpack_prepare unpack_promise unpack_accept unpack_accepted unpack_preempted unpack_repeat
    unpack_trim unpack_acceptor_state unpack_client_value
unpack_type t os =
    if t == 0
    then (do v ← unpack_prepare os; some (Message.prepare v))
    else (if t == 1
        then (do v ← unpack_promise os; some (Message.promise v))
        else (if t == 2
            then (do v ← unpack_accept os; some (Message.accept v))
            else (if t == 3
                then (do v ← unpack_accepted os; some (Message.accepted v))
                else (if t == 4
                    then (do v ← unpack_preempted os; some (Message.preempted v))
                    else (if t == 5
                        then (do v ← unpack_repeat os; some (Message.repeat v))
                        else (if t == 6
                            then (do v ← unpack_trim os; some (Message.trim v))
                            else (if t == 7
                                then (do
                                  v ← unpack_acceptor_state os
                                  some (Message.acceptor_state v))
                                else (if t == 8
                                    then (do
                                      v ← unpack_client_value os
                                      some (Message.client_value v))
                                    else none))))))))

-- `msgpack_unpack_paxos_message`
unfoldable pub unpack_message : List Object → Option Message
unfolding uint32_at unpack_type
unpack_message os = do (t, os₁) ← uint32_at os; unpack_type t os₁
