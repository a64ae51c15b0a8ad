-- ===== src/Peers/Down.antt =====
-- `peers_foreach_down_acceptor` of evpaxos/peers.c against the acceptors that its peers stand for.
use sciascid_libpaxos_d255f.Base.{
  ℕ, ◌+◌, ◌≤◌, ◌≡◌, refl, sym, ap, ◌∙◌, inl, inr, if◌then◌else◌, Option, none, some, List, [], ◌∷◌,
  length, get_elem?, get_or, get_elem?-eq-get_or, Bool-cases, arith,
}
use sciascid_libpaxos_d255f.Peers.{
  ◌==ℤ◌, Address, Config, Peer, Peers, is_down, down_from, down_acceptors,
}
use sciascid_libpaxos_d255f.Peers.Clients.{Numbered}
use sciascid_libpaxos_d255f.Peers.Links.{acceptor_at-some}

-- The peers that stand for acceptors in the own group, at the root, or below it.
abbrev down_peers : Config → Address → List Peer → List Peer
down_peers c own [] = []
down_peers c own (q ∷ qs) = elim (get_elem? c q.id) [
  | none ↦ down_peers c own qs
  | some a ↦ if is_down own a then q ∷ down_peers c own qs else down_peers c own qs
]

down_peers-next :
    (c : Config) (own a : Address) (q : Peer) (qs : List Peer)
    → get_elem? c q.id ≡ some a
    → down_peers c own (q ∷ qs)
      ≡ (if is_down own a then q ∷ down_peers c own qs else down_peers c own qs)
down_peers-next c own a q qs e =
    ap
      (λ (o : Option Address). elim o [
        | none ↦ down_peers c own qs
        | some x ↦ if is_down own x then q ∷ down_peers c own qs else down_peers c own qs
      ])
      e

down_from-next :
    (c : Config) (own a : Address) (i : ℕ) (q : Peer) (qs rest : List Peer)
    → get_elem? c i ≡ some a
    → down_from c own (i + 1) qs ≡ some rest
    → down_from c own i (q ∷ qs) ≡ some (if is_down own a then q ∷ rest else rest)
unfolding down_from
down_from-next c own a i q qs rest e run = rw (acceptor_at-some c i a e, run) refl

down_from_lem :
    (c : Config) (own : Address) (i : ℕ) (qs : List Peer)
    → Numbered i qs
    → i + length qs ≤ length c
    → down_from c own i qs ≡ some (down_peers c own qs)
unfolding down_from
down_from_lem c own i [] w le = refl
down_from_lem c own i (q ∷ qs) (at, w) le =
    let there = get_elem?-eq-get_or c i own (omega arith) in
    down_from-next c own (get_or c i own) i q qs (down_peers c own qs) there
      (down_from_lem c own (i + 1) qs w (omega arith))
    ∙ ap some (sym (down_peers-next c own (get_or c i own) q qs (ap (get_elem? c) at ∙ there)))

-- Where each peer of a node has the id of its place, as in a node that is linked with every acceptor,
-- `peers_foreach_down_acceptor` calls back exactly the peers that stand for acceptors of the node's
-- group, if that is its own parent, and of the groups below; a node of a group at the root calls
-- back none.
down_acceptors_lem :
    (p : Peers) (r : ℕ) (own : Address)
    → p.ownid ≡ some r
    → get_elem? p.config r ≡ some own
    → Numbered 0 p.peers
    → length p.peers ≤ length p.config
    → down_acceptors p
      ≡ some (if own.groupid ==ℤ own.parentid then [] else down_peers p.config own p.peers)
unfolding down_acceptors
down_acceptors_lem p r own e at w le = elim (Bool-cases (own.groupid ==ℤ own.parentid)) [
  | inl root ↦ rw (e, acceptor_at-some p.config r own at, root) refl
  | inr below ↦
      rw
        (
          e,
          acceptor_at-some p.config r own at,
          below,
          down_from_lem p.config own 0 p.peers w (omega arith),
        )
        refl
]
