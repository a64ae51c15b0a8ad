-- ===== src/Evreplica/Submitting.antt =====
-- `evpaxos_replica_submit` of evpaxos/evreplica.c: who is sent a value, and when it fails.
use sciascid_libpaxos_d255f.Base.{
  ℕ, zero, suc, ◌+◌, ◌≡◌, refl, ap, ◌∙◌, ◌==◌, Bool, true, false, Option, none, some, List, [], ◌∷◌,
  length, get_elem?, arith,
}
use sciascid_libpaxos_d255f.Peers.{Peer, Peers, find_peer, is_connected}
use sciascid_libpaxos_d255f.Peers.Clients.{Numbered}
use sciascid_libpaxos_d255f.Peers.Links.{find_peer-head, find_peer-tail}
use sciascid_libpaxos_d255f.Evreplica.{submit_from, replica_submit}
use sciascid_libpaxos_d255f.Transport.{submit}

-- The first peer that is connected.
abbrev first_connected : List Peer → Option Peer
first_connected [] = none
first_connected (q ∷ qs) = elim (is_connected q) [ true ↦ some q | false ↦ first_connected qs ]

-- Where each peer has the id of its place, it is found by that.
find_peer-Numbered :
    (j : ℕ) (qs : List Peer) (i : ℕ) → Numbered j qs → find_peer qs (j + i) ≡ get_elem? qs i
unfolding find_peer
find_peer-Numbered j [] i w = refl
find_peer-Numbered j (q ∷ qs) zero (at, w) = find_peer-head q qs (j + 0) (omega (arith, at))
find_peer-Numbered j (q ∷ qs) (suc i) (at, w) =
    find_peer-tail q qs (j + suc i) (apart q.id at)
    ∙ ap (find_peer qs) (omega arith)
    ∙ find_peer-Numbered (j + 1) qs i w
  where
    apart : (x : ℕ) → x ≡ j → (x == j + suc i) ≡ false
    apart x e = ground arith

submit_from-next :
    (qs : List Peer) (n i : ℕ) (q : Peer)
    → find_peer qs i ≡ some q
    → submit_from qs (suc n) i
      ≡ elim (is_connected q) [ true ↦ some (some q) | false ↦ submit_from qs n (i + 1) ]
unfolding submit_from
submit_from-next qs n i q e = rw e refl

submit_from_lem :
    (qs rest : List Peer) (i : ℕ)
    → ((j : ℕ) → find_peer qs (i + j) ≡ get_elem? rest j)
    → submit_from qs (length rest) i ≡ some (first_connected rest)
unfolding submit_from
submit_from_lem qs [] i h = refl
submit_from_lem qs (q ∷ rest) i h =
    submit_from-next qs (length rest) i q (ap (find_peer qs) (omega arith) ∙ h 0)
    ∙ by_status (is_connected q)
        (submit_from_lem qs rest (i + 1) (λ j. ap (find_peer qs) (omega arith) ∙ h (suc j)))
  where
    by_status :
        {later : Option (Option Peer)} (b : Bool)
        → later ≡ some (first_connected rest)
        → ◌≡◌ {A = Option (Option Peer)}
            (elim b [ true ↦ some (some q) | false ↦ later ])
            (some (elim b [ true ↦ some q | false ↦ first_connected rest ]))
    by_status true e = refl
    by_status false e = e

-- Where each peer has the id of its place, as in a node that is linked with every acceptor,
-- `evpaxos_replica_submit` never fails, and sends the value to the first peer that is connected, if
-- there is one.
replica_submit_lem :
    (qs : List Peer) (bytes : List ℕ) (size : ℕ)
    → Numbered 0 qs
    → replica_submit qs bytes size ≡ some (first_connected qs, submit bytes size)
unfolding replica_submit
replica_submit_lem qs bytes size w =
    rw
      (submit_from_lem qs qs 0 (λ j. ap (find_peer qs) (zero_plus j) ∙ find_peer-Numbered 0 qs j w))
      refl
  where
    zero_plus : (j : ℕ) → 0 + j ≡ 0 + j
    zero_plus j = refl
