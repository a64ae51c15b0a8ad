-- ===== src/Acceptor/Convert.antt =====
-- The conversions of paxos/acceptor.c between stored records and messages, and its search for an
-- acceptor id in a record. The label `msg_info` of a message is left out: nothing reads it.
use sciascid_libpaxos_d255f.Base.{
  ℕ, zero, suc, ◌+◌, Bool, true, false, Option, none, some, List, [], ◌∷◌, ◌++◌, ltb, ◌==◌,
  if◌then◌else◌, ◌>>=◌, ◌>>◌, require, u32_mod,
}
use sciascid_libpaxos_d255f.Types.{Value, Accepted, Accept, Message, promise, preempted}
use sciascid_libpaxos_d255f.Accepted.{null_value, read_ptr, first}

-- `{len, malloc(len)}` filled by `memcpy` from a value.
unfoldable pub clone_value : Value → Option Value
unfolding read_ptr
clone_value v = do bs ← read_ptr v.val v.len; some (record { len = v.len; val = some bs })

-- The value that a promise reports: that of index 0, if there are values.
unfoldable pub promised_value : Option (List Value) → Option Value
unfolding clone_value first
promised_value none = some null_value
promised_value (some vs) = do v ← first (some vs); clone_value v

-- `paxos_accepted_to_promise`
unfoldable pub accepted_to_promise : Accepted → Option Message
unfolding first promised_value
accepted_to_promise acc = do
  ballot ← first acc.ballots
  value_ballot ← first acc.value_ballots
  aid ← first acc.aids
  value ← promised_value acc.values
  some (
      promise (record {
        src = acc.src;
        iid = acc.iid;
        ballot_0 = ballot;
        value_ballot_0 = value_ballot;
        n_aids = 1;
        aids = some (aid ∷ []);
        value_0 = null_value;
        values = some (value ∷ []);
        ballots = some (ballot ∷ []);
        value_ballots = some (value_ballot ∷ []);
      }))

-- `paxos_accept_to_accepted`
unfoldable pub accept_to_accepted : ℕ → Accept → Option Accepted
unfolding clone_value
accept_to_accepted id acc = do
  value ← clone_value acc.value
  some (record {
    src = acc.src;
    iid = acc.iid;
    ballot_0 = acc.ballot;
    value_ballot_0 = acc.ballot;
    n_aids = 1;
    aids = some (id ∷ []);
    value_0 = null_value;
    values = some (value ∷ []);
    ballots = some (acc.ballot ∷ []);
    value_ballots = some (acc.ballot ∷ []);
  })

-- `paxos_accepted_to_preempted`
unfoldable pub accepted_to_preempted : ℕ → Accepted → Option Message
unfolding first
accepted_to_preempted id acc = do
  ballot ← first acc.ballots
  some (preempted (record { aid = id; iid = acc.iid; ballot = ballot }))

-- The search for `id` among the first `n` elements, which stops where it is found.
unfoldable pub search_aid : ℕ → ℕ → List ℕ → Option Bool
search_aid id zero xs = some false
search_aid id (suc n) [] = none
search_aid id (suc n) (x ∷ xs) = if x == id then some true else search_aid id n xs

-- `bfound`: whether the record names the acceptor `id`.
unfoldable pub has_aid : ℕ → Accepted → Option Bool
unfolding search_aid
has_aid id acc = elim acc.aids [
  | none ↦ if acc.n_aids == 0 then some false else none
  | some xs ↦ search_aid id acc.n_aids xs
]

-- An array of one element more: the old elements, read one by one, and `x`.
unfoldable pub extend : Option (List ℕ) → ℕ → ℕ → Option (Option (List ℕ))
unfolding read_ptr
extend p n x = do xs ← read_ptr p n; some (some (xs ++ (x ∷ [])))

-- The code that adds an acceptor to a record; `values` is not extended. Were `n_aids` to wrap to 0,
-- the loops would write outside the new arrays.
unfoldable pub append_aid : Accepted → ℕ → ℕ → ℕ → Option Accepted
unfolding extend
append_aid acc id ballot value_ballot = do
  require (ltb (acc.n_aids + 1) u32_mod)
  aids' ← extend acc.aids acc.n_aids id
  ballots' ← extend acc.ballots acc.n_aids ballot
  value_ballots' ← extend acc.value_ballots acc.n_aids value_ballot
  some (record acc {
    n_aids = acc.n_aids + 1;
    aids = aids';
    ballots = ballots';
    value_ballots = value_ballots';
  })
