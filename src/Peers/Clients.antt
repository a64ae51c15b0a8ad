-- ===== src/Peers/Clients.antt =====
-- `on_accept` and `on_client_event` of evpaxos/peers.c: the list of clients.
use sciascid_libpaxos_d255f.Base.{
  ℕ, suc, ◌+◌, ◌≡◌, refl, sym, ap, ◌∙◌, inl, inr, ◌==◌, ◌||◌, true, false, if◌then◌else◌, none,
  some, List, [], ◌∷◌, ◌++◌, length, Bool-cases, Option-cases, some_inj, ==_iff, Member, subst,
  arith,
}
use sciascid_libpaxos_d255f.Peers.{
  Config, Events, Peer, Peers, make_peer, new, on_accept, move_up, without_client, client_at,
  on_client_event,
}

-- Each client has the id of its place, from `i` on.
abbrev pub Numbered : ℕ → List Peer → Type 0
Numbered i [] = Unit {0}
Numbered i (c ∷ cs) = (c.id ≡ i) × Numbered (i + 1) cs

abbrev pub addresses : List Peer → List ℕ
addresses [] = []
addresses (c ∷ cs) = c.address ∷ addresses cs

-- The list without the first `k`.
abbrev pub without : ℕ → List ℕ → List ℕ
without k [] = []
without k (x ∷ xs) = if x == k then xs else x ∷ without k xs

Numbered-append :
    (i : ℕ) (cs : List Peer) (c : Peer)
    → Numbered i cs
    → c.id ≡ i + length cs
    → Numbered i (cs ++ (c ∷ []))
Numbered-append i [] c w e = (e ∙ (omega arith), tt)
Numbered-append i (x ∷ cs) c (at, w) e = (at, Numbered-append (i + 1) cs c w (e ∙ (omega arith)))

move_up-Numbered : (i : ℕ) (c : Peer) (cs : List Peer) → Numbered i (move_up i (c ∷ cs))
unfolding move_up
move_up-Numbered i c [] = tt
move_up-Numbered i c (d ∷ cs) = (refl, move_up-Numbered (i + 1) d cs)

move_up-addresses :
    (i : ℕ) (c : Peer) (cs : List Peer) → addresses (move_up i (c ∷ cs)) ≡ addresses cs
unfolding move_up
move_up-addresses i c [] = refl
move_up-addresses i c (d ∷ cs) = ap (λ xs. d.address ∷ xs) (move_up-addresses (i + 1) d cs)

client_at-head : (k : ℕ) (c : Peer) (cs : List Peer) → c.address ≡ k → client_at k (c ∷ cs) ≡ some c
unfolding client_at
client_at-head k c cs e = rw ((==_iff c.address k).1 e) refl

client_at-tail :
    (k : ℕ) (c : Peer) (cs : List Peer)
    → (c.address == k) ≡ false
    → client_at k (c ∷ cs) ≡ client_at k cs
unfolding client_at
client_at-tail k c cs e = rw e refl

-- What the loop of `on_client_event` leaves of the clients from the place `i` on, for the one that
-- lies at `k`.
record Left (i k : ℕ) (cs : List Peer) (q : Peer) : Type 0 where
  pub place : ℕ
  pub id_is : q.id ≡ i + place
  pub numbered : Numbered i (without_client place i cs)
  pub others : addresses (without_client place i cs) ≡ without k (addresses cs)

some_peer : {c q : Peer} → some c ≡ some q → c ≡ q
some_peer e = cc

no_peer : {q : Peer} → none ≡ some q → ⊥
no_peer e = cc

Left-here :
    (i k : ℕ) (c : Peer) (cs : List Peer) (q : Peer)
    → c.id ≡ i
    → c ≡ q
    → (c.address == k) ≡ true
    → Left i k (c ∷ cs) q
unfolding without_client
Left-here i k c cs q at same e = record {
  place = 0;
  id_is = ap (λ (x : Peer). x.id) (sym same) ∙ at ∙ (omega arith);
  numbered = move_up-Numbered i c cs;
  others = rw e (move_up-addresses i c cs);
}

without_client_lem :
    (i k : ℕ) (cs : List Peer) (q : Peer) → Numbered i cs → client_at k cs ≡ some q → Left i k cs q
unfolding without_client client_at
without_client_lem i k [] q w e = absurd (no_peer e)
without_client_lem i k (c ∷ []) q (at, w) e = elim (Bool-cases (c.address == k)) [
  | inl here ↦
      Left-here i k c [] q at
        (some_peer (sym (client_at-head k c [] ((==_iff c.address k).0 here)) ∙ e)) here
  | inr other ↦ absurd (no_peer (sym (client_at-tail k c [] other) ∙ e))
]
without_client_lem i k (c ∷ d ∷ cs) q (at, w) e = elim (Bool-cases (c.address == k)) [
  | inl here ↦
      Left-here i k c (d ∷ cs) q at
        (some_peer (sym (client_at-head k c (d ∷ cs) ((==_iff c.address k).0 here)) ∙ e)) here
  | inr other ↦
      let l =
        without_client_lem (i + 1) k (d ∷ cs) q w (sym (client_at-tail k c (d ∷ cs) other) ∙ e) in
      record {
        place = suc l.place;
        id_is = omega (arith, l.id_is);
        numbered = (at, l.numbered);
        others = rw other (ap (λ xs. c.address ∷ xs) l.others);
      }
]

-- A client comes, at an address where none is, or libevent reports events of one.
pub data Change (p : Peers) : Peers → Type 0 where
  comes : (k : ℕ) → (Member k (addresses p.clients) → ⊥) → Change p (on_accept p k)
  reports : (k : ℕ) (ev : Events) (p' : Peers) → on_client_event p k ev ≡ some p' → Change p p'

-- The states of a node with the configuration `c`.
pub data Reached (c : Config) : Peers → Type 0 where
  starts : Reached c (new c)
  next : {p p' : Peers} → Reached c p → Change p p' → Reached c p'

client_event-quiet :
    (p : Peers) (k : ℕ) (ev : Events)
    → (ev.eof || ev.error) ≡ false
    → on_client_event p k ev ≡ some p
unfolding on_client_event
client_event-quiet p k ev e = rw e refl

client_event-gone :
    (p : Peers) (k : ℕ) (ev : Events) (q : Peer)
    → (ev.eof || ev.error) ≡ true
    → client_at k p.clients ≡ some q
    → on_client_event p k ev ≡ some (record p { clients = without_client q.id 0 p.clients })
unfolding on_client_event
client_event-gone p k ev q e at = rw (e, at) refl

client_event-absent :
    (p : Peers) (k : ℕ) (ev : Events)
    → (ev.eof || ev.error) ≡ true
    → client_at k p.clients ≡ none
    → on_client_event p k ev ≡ none
unfolding on_client_event
client_event-absent p k ev e at = rw (e, at) refl

-- Where each client has the id of its place, `on_client_event` of one that has closed its connection
-- or failed takes that client out of the list and no other, in whatever order they left, and each
-- client has the id of its place again.
pub on_client_event_lem :
    (p : Peers) (k : ℕ) (ev : Events) (q : Peer)
    → Numbered 0 p.clients
    → (ev.eof || ev.error) ≡ true
    → client_at k p.clients ≡ some q
    → (p' : Peers) × (on_client_event p k ev ≡ some p')
      × (addresses p'.clients ≡ without k (addresses p.clients))
      × Numbered 0 p'.clients
      × (p'.peers ≡ p.peers)
on_client_event_lem p k ev q w e at =
    let l = without_client_lem 0 k p.clients q w at in
    let run =
      client_event-gone p k ev q e at
      ∙ ap (λ i. some (record p { clients = without_client i 0 p.clients }))
          (l.id_is ∙ (omega arith)) in
    (record p { clients = without_client l.place 0 p.clients }, run, l.others, l.numbered, refl)

Changed-Numbered : (p p' : Peers) → Change p p' → Numbered 0 p.clients → Numbered 0 p'.clients
unfolding on_accept make_peer on_client_event
Changed-Numbered p _ (Change.comes k new_one) w =
    Numbered-append 0 p.clients (make_peer k (length p.clients)) w (omega arith)
Changed-Numbered p p' (Change.reports k ev _ run) w = elim (Bool-cases (ev.eof || ev.error)) [
  | inr quiet ↦
      subst (λ x. Numbered 0 x.clients) (some_inj (sym (client_event-quiet p k ev quiet) ∙ run)) w
  | inl gone ↦ elim (Option-cases (client_at k p.clients)) [
    | inl absent ↦ absurd (no_peers (sym (client_event-absent p k ev gone absent) ∙ run))
    | inr (q, at) ↦
        let (p₁, run₁, _, w₁, _) = on_client_event_lem p k ev q w gone at in
        subst (λ x. Numbered 0 x.clients) (some_inj (sym run₁ ∙ run)) w₁
  ]
]
  where
    no_peers : {q : Peers} → none ≡ some q → ⊥
    no_peers e = cc

-- Whatever clients come, leave and report events, in any order, each client has the id of its place
-- in the list: `on_client_event` never takes out another one.
pub Reached-Numbered : (c : Config) (p : Peers) → Reached c p → Numbered 0 p.clients
unfolding new
Reached-Numbered c _ Reached.starts = tt
Reached-Numbered c p' (Reached.next {p} r s) = Changed-Numbered p p' s (Reached-Numbered c p r)
