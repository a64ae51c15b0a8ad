-- ===== src/Peers.antt =====
-- evpaxos/peers.c: which acceptors a node connects to, its clients, and who is sent a message. The
-- sockets of libevent are left out: an event that libevent reports is an argument.
pub mod Groups
pub mod Links
pub mod Clients
pub mod Down
pub mod Reading
pub mod Streams
use sciascid_libpaxos_d255f.Base.{
  ℕ, zero, suc, ◌+◌, ◌-◌, ◌==◌, Bool, true, false, not, ◌&&◌, ◌||◌, ltb, if◌then◌else◌, ℤ, pos,
  negsuc, Option, none, some, List, [], ◌∷◌, ◌++◌, length, get_elem?, ◌>>=◌,
}
use sciascid_libpaxos_d255f.Proposer.{max_proposers}

-- `a == b` for `int`
infix 50 ◌==ℤ◌
abbrev pub ◌==ℤ◌ : ℤ → ℤ → Bool
pos m ==ℤ pos n = m == n
pos m ==ℤ negsuc n = false
negsuc m ==ℤ pos n = false
negsuc m ==ℤ negsuc n = m == n

-- The groups of a `struct address`; its host and port are not read here.
pub record Address : Type 0 where
  pub groupid : ℤ
  pub parentid : ℤ

-- The acceptors of a `struct evpaxos_config`, as many as `acceptors_count`.
abbrev pub Config : Type 0
Config = List Address

-- `config->acceptors[i]`: behind the acceptors that are set the array is zero, and it has
-- `MAX_N_OF_PROPOSERS` places.
unfoldable pub acceptor_at : Config → ℕ → Option Address
acceptor_at c i = elim (get_elem? c i) [
  | some a ↦ some a
  | none ↦ if ltb i max_proposers then some (record { groupid = pos 0; parentid = pos 0 }) else none
]

-- The events of libevent, a set of flags: `others` are those that the code does not test.
pub record Events : Type 0 where
  pub connected : Bool
  pub eof : Bool
  pub error : Bool
  pub others : Bool

-- `BEV_EVENT_EOF`
abbrev pub only_eof : Events
only_eof = record { connected = false; eof = true; error = false; others = false }

-- `struct peer`; `address` is where it lies in memory, which tells one peer from another.
pub record Peer : Type 0 where
  pub address : ℕ
  pub id : ℕ
  pub status : Events

-- `struct peers`, without its subscriptions. `ownid` is `none` for -1.
pub record Peers : Type 0 where
  pub peers : List Peer
  pub clients : List Peer
  pub config : Config
  pub ownid : Option ℕ

-- `peers_new`
unfoldable pub new : Config → Peers
new c = record { peers = []; clients = []; config = c; ownid = none }

-- `make_peer`
unfoldable pub make_peer : ℕ → ℕ → Peer
make_peer address id = record { address = address; id = id; status = only_eof }

-- `peers_connect`
unfoldable pub connect : Peers → ℕ → ℕ → Peers
unfolding make_peer
connect p address id = record p { peers = p.peers ++ (make_peer address id ∷ []) }

-- The four cases of `peers_connect_to_acceptors`, for the acceptor `a` and the own one, `own`.
unfoldable pub connects : Address → Address → Bool
connects own a =
    if a.groupid ==ℤ own.groupid
    then true
    else (if not (own.groupid ==ℤ own.parentid) && (a.groupid ==ℤ own.parentid)
        then true
        else (if not (own.groupid ==ℤ own.parentid)
              && (not (a.groupid ==ℤ a.parentid) && (a.parentid ==ℤ own.parentid))
            then true
            else (if not (a.groupid ==ℤ a.parentid) && (a.parentid ==ℤ own.groupid)
                then true
                else false)))

-- The loop of `peers_connect_to_acceptors` from the acceptor `i` on, with `n` left; `fresh` is where
-- the new peers lie.
unfoldable pub connect_each : (ℕ → ℕ) → ℕ → ℕ → Address → Peers → Option Peers
unfolding acceptor_at connects connect
connect_each fresh zero i own p = some p
connect_each fresh (suc n) i own p = do
  a ← acceptor_at p.config i
  connect_each fresh n (i + 1) own (if connects own a then connect p (fresh i) i else p)

-- `peers_connect_to_acceptors`
unfoldable pub connect_to_acceptors : (ℕ → ℕ) → Peers → ℕ → Option Peers
unfolding acceptor_at connect_each
connect_to_acceptors fresh p replica_id = do
  own ← acceptor_at p.config replica_id
  connect_each fresh (length p.config) 0 own (record p { ownid = some replica_id })

-- `peers_get_acceptor`
unfoldable pub find_peer : List Peer → ℕ → Option Peer
find_peer [] id = none
find_peer (q ∷ qs) id = let rest = find_peer qs id in if q.id == id then some q else rest

-- The test of `peers_foreach_down_acceptor` for the acceptor `a`.
unfoldable pub is_down : Address → Address → Bool
is_down own a =
    ((own.groupid ==ℤ a.groupid) && (a.groupid ==ℤ a.parentid))
    || ((own.groupid ==ℤ a.parentid) && not (a.groupid ==ℤ a.parentid))

-- The loop of `peers_foreach_down_acceptor` from the index `i` on: whom it calls back. It reads the
-- acceptor of the index, which is not the one of the peer there unless the peer's id is `i` too.
unfoldable pub down_from : Config → Address → ℕ → List Peer → Option (List Peer)
unfolding acceptor_at is_down
down_from c own i [] = some []
down_from c own i (q ∷ qs) = do
  a ← acceptor_at c i
  rest ← down_from c own (i + 1) qs
  some (if is_down own a then q ∷ rest else rest)

-- `peers_foreach_down_acceptor`
unfoldable pub down_acceptors : Peers → Option (List Peer)
unfolding down_from
down_acceptors p = do
  id ← p.ownid
  own ← acceptor_at p.config id
  if own.groupid ==ℤ own.parentid then some [] else down_from p.config own 0 p.peers

-- `peer_connected`
unfoldable pub is_connected : Peer → Bool
is_connected q =
    q.status.connected && (not q.status.eof && (not q.status.error && not q.status.others))

-- `on_peer_event`: the peer, and whether it is to connect again after a while.
unfoldable pub on_peer_event : Peer → Events → Peer × Bool
on_peer_event q ev =
    if ev.connected
    then (record q { status = ev }, false)
    else (if ev.error || ev.eof then (record q { status = ev }, true) else (q, false))

-- `on_accept`
unfoldable pub on_accept : Peers → ℕ → Peers
unfolding make_peer
on_accept p address = record p {
  clients = p.clients ++ (make_peer address (length p.clients) ∷ []);
}

-- The loop of `on_client_event`, on the clients from the place `i` on: each takes the place and the
-- id of the one before.
unfoldable pub move_up : ℕ → List Peer → List Peer
move_up i [] = []
move_up i (x ∷ []) = []
move_up i (x ∷ y ∷ ys) = record y { id = i } ∷ move_up (i + 1) (y ∷ ys)

-- The clients without the one of the place `id`; the first of them stands at the place `i`.
unfoldable pub without_client : ℕ → ℕ → List Peer → List Peer
unfolding move_up
without_client zero i cs = move_up i cs
without_client (suc id) i [] = []
without_client (suc id) i (c ∷ []) = []
without_client (suc id) i (c ∷ d ∷ cs) = c ∷ without_client id (i + 1) (d ∷ cs)

-- The client that lies at `address`.
unfoldable pub client_at : ℕ → List Peer → Option Peer
client_at address [] = none
client_at address (c ∷ cs) =
    let rest = client_at address cs in if c.address == address then some c else rest

-- `on_client_event` of the client that lies at `address`, which has to be one of the clients.
unfoldable pub on_client_event : Peers → ℕ → Events → Option Peers
unfolding without_client client_at
on_client_event p address ev =
    if ev.eof || ev.error
    then (do
      q ← client_at address p.clients
      some (record p { clients = without_client q.id 0 p.clients }))
    else some p
