-- ===== src/Tests/Peers.antt =====
-- evpaxos/peers.c on a configuration of four acceptors: two at the root, one in a group below and one
-- in a group below that.
use sciascid_libpaxos_d255f.Base.{ℕ, ◌≡◌, refl, true, false, pos, some, [], ◌∷◌}
use sciascid_libpaxos_d255f.Peers.{
  Address, Config, Events, Peers, new, make_peer, connect_to_acceptors, find_peer, down_acceptors,
  on_accept, on_client_event, client_at,
}
use sciascid_libpaxos_d255f.Peers.Links.{made, Connected, connect_to_acceptors_lem, links_mutual}
use sciascid_libpaxos_d255f.Peers.Clients.{
  Numbered, addresses, without, Change, Reached, on_client_event_lem, Reached-Numbered,
}

abbrev pub group : ℕ → ℕ → Address
group g parent = record { groupid = pos g; parentid = pos parent }

abbrev four : Config
four = group 0 0 ∷ group 0 0 ∷ group 1 0 ∷ group 2 1 ∷ []

abbrev pub same_place : ℕ → ℕ
same_place k = k

-- The node of the acceptor `r`, of the address `own`.
abbrev node : ℕ → Address → Peers
node r own = record {
  peers = made same_place own 0 four;
  clients = [];
  config = four;
  ownid = some r;
}

connect_to_acceptors_lem_example :
    (p : Peers) × (connect_to_acceptors same_place (new four) 2 ≡ some p)
    × Connected same_place four 2 (group 1 0) p
connect_to_acceptors_lem_example = connect_to_acceptors_lem same_place four 2 (group 1 0) refl

links_mutual_example : find_peer (node 0 (group 0 0)).peers 2 ≡ some (make_peer 2 2)
unfolding connect_to_acceptors new find_peer
links_mutual_example =
    links_mutual same_place same_place four 2 0 (group 1 0) (node 2 (group 1 0))
      (node 0 (group 0 0)) (make_peer 0 0) refl refl refl refl

-- Acceptor 2 passes requests on to acceptor 3, the group below its own.
passes_down : down_acceptors (node 2 (group 1 0)) ≡ some (make_peer 3 3 ∷ [])
unfolding down_acceptors connect_to_acceptors
passes_down = refl

-- The same groups behind an acceptor that is not linked: nothing is passed on, since the loop reads
-- the acceptors 0, 1 and 2 for the peers 1, 2 and 3.
abbrev pub shifted : Config
shifted = group 5 5 ∷ group 0 0 ∷ group 1 0 ∷ group 2 1 ∷ []

passes_nothing :
    down_acceptors (record {
      peers = made same_place (group 1 0) 0 shifted;
      clients = [];
      config = shifted;
      ownid = some 2;
    })
    ≡ some []
unfolding down_acceptors connect_to_acceptors
passes_nothing = refl

abbrev at_end : Events
at_end = record { connected = false; eof = true; error = false; others = false }

-- Clients at 100, 200 and 300.
abbrev three_clients : Peers
three_clients = on_accept (on_accept (on_accept (new four) 100) 200) 300

on_client_event_lem_example :
    (p' : Peers) × (on_client_event three_clients 200 at_end ≡ some p')
    × (addresses p'.clients ≡ without 200 (addresses three_clients.clients))
    × Numbered 0 p'.clients
    × (p'.peers ≡ three_clients.peers)
unfolding on_accept make_peer new client_at
on_client_event_lem_example =
    on_client_event_lem three_clients 200 at_end (make_peer 200 1) (refl, (refl, (refl, tt))) refl
      refl

Reached-Numbered_example : Numbered 0 (on_accept (new four) 100).clients
unfolding new
Reached-Numbered_example =
    Reached-Numbered four (on_accept (new four) 100)
      (Reached.next Reached.starts (Change.comes 100 (λ m. absurd m)))
