-- ===== src/Quorum.antt =====
-- paxos/quorum.c, and `paxos_quorum` of paxos/paxos.c: which acceptors have answered. An id outside
-- the array is `none`. Allocation is taken to succeed.
pub mod Marks
use sciascid_libpaxos_d255f.Base.{
  ℕ, ◌+◌, Bool, true, false, Option, none, some, List, length, get_elem?, set, replicate, leb, ◌==◌,
  if◌then◌else◌, ◌>>=◌,
}
use sciascid_libpaxos_d255f.Types.{paxos_quorum}

-- `struct quorum`
pub record Quorum : Type 0 where
  pub count : ℕ
  pub quorum : ℕ
  pub acceptors : ℕ
  pub acceptor_ids : List ℕ

-- `quorum_clear`
unfoldable pub clear : Quorum → Quorum
clear q = record q { count = 0; acceptor_ids = replicate q.acceptors 0 }

-- `quorum_init`
unfoldable pub init : ℕ → Quorum
unfolding clear paxos_quorum
init acceptors = clear (record {
  count = 0;
  quorum = paxos_quorum acceptors;
  acceptors = acceptors;
  acceptor_ids = replicate acceptors 0;
})

-- `quorum_add`
unfoldable pub add : Quorum → ℕ → Option (Bool × Quorum)
add q id = do
  seen ← get_elem? q.acceptor_ids id
  if seen == 0
      then some (true, record q { count = q.count + 1; acceptor_ids = set q.acceptor_ids id 1 })
      else some (false, q)

-- `quorum_reached`
unfoldable pub reached : Quorum → Bool
reached q = leb q.quorum q.count
