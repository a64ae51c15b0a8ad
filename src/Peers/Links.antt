-- ===== src/Peers/Links.antt =====
-- `peers_connect_to_acceptors` and `peers_get_acceptor` of evpaxos/peers.c: who is linked with whom.
use mathlib.Core.List.{append_assoc, append-nil}
use sciascid_libpaxos_d255f.Base.{
  ℕ, zero, suc, ◌+◌, ◌<◌, ◌≡◌, refl, sym, ap, ◌∙◌, inl, inr, ◌==◌, false, if◌then◌else◌, Option,
  none, some, List, [], ◌∷◌, ◌++◌, length, get_elem?, Bool-cases, ==_iff, some_inj, arith,
}
use sciascid_libpaxos_d255f.Peers.{
  Address, Config, acceptor_at, Peer, Peers, new, make_peer, connect, connects, connect_each,
  connect_to_acceptors, find_peer,
}
use sciascid_libpaxos_d255f.Peers.Groups.{connects_sym, Linked, connects_iff}

-- The peers that are made for the acceptors `as` from the number `i` on.
abbrev pub made : (ℕ → ℕ) → Address → ℕ → Config → List Peer
made fresh own i [] = []
made fresh own i (a ∷ rest) =
    if connects own a
    then make_peer (fresh i) i ∷ made fresh own (i + 1) rest
    else made fresh own (i + 1) rest

pub acceptor_at-some :
    (c : Config) (i : ℕ) (a : Address) → get_elem? c i ≡ some a → acceptor_at c i ≡ some a
unfolding acceptor_at
acceptor_at-some c i a e = rw (e, acceptor_at) refl

-- `rest` is what is left of the acceptors `c` behind the first `i`.
abbrev Behind : Config → ℕ → Config → Type 0
Behind c i rest = (j : ℕ) → get_elem? rest j ≡ get_elem? c (i + j)

Behind-next :
    (c : Config) (i : ℕ) (a : Address) (rest : Config)
    → Behind c i (a ∷ rest)
    → (acceptor_at c i ≡ some a) × Behind c (i + 1) rest
Behind-next c i a rest b = (
  acceptor_at-some c i a (ap (get_elem? c) (omega arith) ∙ sym (b 0)),
  λ j. b (suc j) ∙ ap (get_elem? c) (omega arith),
)

connect_each_lem :
    (fresh : ℕ → ℕ) (rest : Config) (i : ℕ) (own : Address) (p : Peers)
    → Behind p.config i rest
    → connect_each fresh (length rest) i own p
      ≡ some (record p { peers = p.peers ++ made fresh own i rest })
unfolding connect_each connect
connect_each_lem fresh [] i own p b =
    ap (λ ps. some (record p { peers = ps })) (sym (append-nil p.peers))
connect_each_lem fresh (a ∷ rest) i own p b = elim (Bool-cases (connects own a)) [
  | inr apart ↦
      rw ((Behind-next p.config i a rest b).0, apart)
        (connect_each_lem fresh rest (i + 1) own p (Behind-next p.config i a rest b).1)
  | inl linked ↦
      rw ((Behind-next p.config i a rest b).0, linked)
        (connect_each_lem fresh rest (i + 1) own (connect p (fresh i) i)
            (Behind-next p.config i a rest b).1
          ∙ ap (λ ps. some (record p { peers = ps }))
              (append_assoc p.peers (make_peer (fresh i) i ∷ []) (made fresh own (i + 1) rest)))
]

connect_to_acceptors-made :
    (fresh : ℕ → ℕ) (c : Config) (r : ℕ) (own : Address)
    → get_elem? c r ≡ some own
    → connect_to_acceptors fresh (new c) r
      ≡ some (record (new c) { peers = made fresh own 0 c; ownid = some r })
unfolding connect_to_acceptors new
connect_to_acceptors-made fresh c r own e = rw (acceptor_at-some c r own e) (
    connect_each_lem fresh c 0 own (record (new c) { ownid = some r })
      (λ j. ap (get_elem? c) (omega arith)))

pub find_peer-head : (q : Peer) (qs : List Peer) (k : ℕ) → q.id ≡ k → find_peer (q ∷ qs) k ≡ some q
unfolding find_peer
find_peer-head q qs k e = rw ((==_iff q.id k).1 e) refl

pub find_peer-tail :
    (q : Peer) (qs : List Peer) (k : ℕ)
    → (q.id == k) ≡ false
    → find_peer (q ∷ qs) k ≡ find_peer qs k
unfolding find_peer
find_peer-tail q qs k e = rw e refl

find_peer-below :
    (fresh : ℕ → ℕ) (own : Address) (i : ℕ) (rest : Config) (k : ℕ)
    → k < i
    → find_peer (made fresh own i rest) k ≡ none
unfolding find_peer make_peer
find_peer-below fresh own i [] k h = refl
find_peer-below fresh own i (a ∷ rest) k h = elim (Bool-cases (connects own a)) [
  | inr apart ↦ rw apart (find_peer-below fresh own (i + 1) rest k (omega arith))
  | inl linked ↦ rw linked (
      find_peer-tail (make_peer (fresh i) i) (made fresh own (i + 1) rest) k (ground arith)
      ∙ find_peer-below fresh own (i + 1) rest k (omega arith))
]

-- The peer of the number `k`, for the acceptor there, if it is linked.
abbrev pub peer_for : (ℕ → ℕ) → Address → ℕ → Option Address → Option Peer
peer_for fresh own k none = none
peer_for fresh own k (some a) = if connects own a then some (make_peer (fresh k) k) else none

find_peer-made :
    (fresh : ℕ → ℕ) (own : Address) (i : ℕ) (rest : Config) (j : ℕ)
    → find_peer (made fresh own i rest) (i + j) ≡ peer_for fresh own (i + j) (get_elem? rest j)
unfolding find_peer make_peer
find_peer-made fresh own i [] j = refl
find_peer-made fresh own i (a ∷ rest) zero = elim (Bool-cases (connects own a)) [
  | inr apart ↦ rw apart (find_peer-below fresh own (i + 1) rest (i + 0) (omega arith))
  | inl linked ↦ rw linked (
      find_peer-head (make_peer (fresh i) i) (made fresh own (i + 1) rest) (i + 0) (omega arith)
      ∙ ap (λ k. some (make_peer (fresh k) k)) (omega arith))
]
find_peer-made fresh own i (a ∷ rest) (suc j) =
    let same : i + suc j ≡ i + 1 + j = omega arith in
    let later =
      ap (find_peer (made fresh own (i + 1) rest)) same
      ∙ find_peer-made fresh own (i + 1) rest j
      ∙ ap (λ k. peer_for fresh own k (get_elem? rest j)) (sym same) in
    elim (Bool-cases (connects own a)) [
      | inr apart ↦ rw apart later
      | inl linked ↦ rw linked (
          find_peer-tail (make_peer (fresh i) i) (made fresh own (i + 1) rest) (i + suc j)
            (ground arith)
          ∙ later)
    ]

-- The peers of a node, behind `peers_connect_to_acceptors`.
pub record Connected (fresh : ℕ → ℕ) (c : Config) (r : ℕ) (own : Address) (p : Peers) : Type 0 where
  pub is_own : p.ownid ≡ some r
  pub same_config : p.config ≡ c
  pub finds :
      (k : ℕ) (a : Address)
      → get_elem? c k ≡ some a
      → Linked own a
      → find_peer p.peers k ≡ some (make_peer (fresh k) k)
  pub found :
      (k : ℕ) (q : Peer)
      → find_peer p.peers k ≡ some q
      → (a : Address) × (get_elem? c k ≡ some a) × Linked own a

peer_for-Linked :
    (fresh : ℕ → ℕ) (own : Address) (k : ℕ) (o : Option Address) (q : Peer)
    → peer_for fresh own k o ≡ some q
    → (a : Address) × (o ≡ some a) × Linked own a
peer_for-Linked fresh own k none q e = absurd (cc)
peer_for-Linked fresh own k (some a) q e = elim (Bool-cases (connects own a)) [
  | inl linked ↦ (a, refl, (connects_iff own a).0 linked)
  | inr apart ↦ absurd (clash (rw apart at e))
]
  where
    clash : ◌≡◌ {A = Option Peer} none (some q) → ⊥
    clash h = cc

-- `peers_connect_to_acceptors` of an acceptor of the configuration never fails, and
-- `peers_get_acceptor` then finds exactly the acceptors that the node is linked with: those of its
-- group, of the group above, of the groups beside it below the same one, and of the groups below.
pub connect_to_acceptors_lem :
    (fresh : ℕ → ℕ) (c : Config) (r : ℕ) (own : Address)
    → get_elem? c r ≡ some own
    → (p : Peers) × (connect_to_acceptors fresh (new c) r ≡ some p) × Connected fresh c r own p
unfolding new
connect_to_acceptors_lem fresh c r own e = (
  _,
  connect_to_acceptors-made fresh c r own e,
  record {
    is_own = refl;
    same_config = refl;
    finds =
        λ k a at l. lookup k ∙ ap (peer_for fresh own k) at ∙ rw ((connects_iff own a).1 l) refl;
    found = λ k q f. peer_for-Linked fresh own k (get_elem? c k) q (sym (lookup k) ∙ f);
  },
)
  where
    lookup : (k : ℕ) → find_peer (made fresh own 0 c) k ≡ peer_for fresh own k (get_elem? c k)
    lookup k =
        ap (find_peer (made fresh own 0 c)) (omega arith)
        ∙ find_peer-made fresh own 0 c k
        ∙ ap (λ x. peer_for fresh own x (get_elem? c k)) (omega arith)

-- Links are mutual: where a node finds the acceptor `i` among its peers, `i` finds the node.
pub links_mutual :
    (fresh fresh' : ℕ → ℕ) (c : Config) (r i : ℕ) (own : Address) (p p' : Peers) (q : Peer)
    → get_elem? c r ≡ some own
    → connect_to_acceptors fresh (new c) r ≡ some p
    → connect_to_acceptors fresh' (new c) i ≡ some p'
    → find_peer p.peers i ≡ some q
    → find_peer p'.peers r ≡ some (make_peer (fresh' r) r)
links_mutual fresh fresh' c r i own p p' q at run run' f =
    let (p₁, run₁, l) = connect_to_acceptors_lem fresh c r own at in
    let (a, at_i, linked) =
      l.found i q (ap (λ x. find_peer x.peers i) (some_inj (sym run₁ ∙ run)) ∙ f) in
    let (p₂, run₂, l') = connect_to_acceptors_lem fresh' c i a at_i in
    ap (λ x. find_peer x.peers r) (some_inj (sym run' ∙ run₂))
    ∙ l'.finds r own at
        ((connects_iff a own).0 (connects_sym a own ∙ (connects_iff own a).1 linked))
