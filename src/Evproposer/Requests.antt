-- ===== src/Evproposer/Requests.antt =====
-- The accept requests of `try_accept` of evpaxos/evproposer.c, and what they leave.
use sciascid_libpaxos_d255f.Base.{
  ℕ, ◌<◌, ◌≡◌, ◌≢◌, refl, sym, ap, ◌∙◌, ◌⊎◌, inl, inr, true, false, Option, none, some, List, [],
  ◌∷◌, ◌==◌, ==_iff, Bool-cases, subst, arith,
}
use sciascid_libpaxos_d255f.Types.{Value, Accept}
use sciascid_libpaxos_d255f.Carray.{Carray}
use sciascid_libpaxos_d255f.Carray.Window
use sciascid_libpaxos_d255f.Carray.Window.{contents}
use sciascid_libpaxos_d255f.Quorum.{reached}
use sciascid_libpaxos_d255f.KHash.{KHash, IsTable}
use sciascid_libpaxos_d255f.KHash.Held.{Fewer, Fewer-some}
use sciascid_libpaxos_d255f.Proposer.{Instance, Proposer}
use sciascid_libpaxos_d255f.Proposer.Accepting.{IsReady, Least, Given, Proposed}

module _ (table : KHash Instance) (ok : IsTable table) (junk : Value) where
  -- The table never runs out of memory.
  abbrev pub Roomy : Type 0
  Roomy = (t : table.Table) (k : ℕ) → table.no_memory t k ≡ false

  -- The queue behind the choice of a value is valid.
  Given-queue :
      (p : Proposer table junk) (inst : Instance) (q : Carray Value) (w : Option Value)
      → Window.IsValid p.values
      → Given table ok junk p inst q w
      → Window.IsValid q
  Given-queue p inst q w v (Given.own x e same e') = subst Window.IsValid (sym same) v
  Given-queue p inst q w v (Given.taken x e holds whole e') = whole
  Given-queue p inst q w v (Given.empty e nil same e') = subst Window.IsValid (sym same) v

  -- `proposer_accept` leaves no instance that was not there, and none in both tables.
  pub Proposed-IsReady :
      (p p' : Proposer table junk) (out : Option Accept)
      → Roomy
      → IsReady table ok junk p
      → Proposed table ok junk p out p'
      → IsReady table ok junk p'
  Proposed-IsReady p p' out roomy r (Proposed.nothing all o same) =
      subst (IsReady table ok junk) (sym same) r
  Proposed-IsReady p p' out roomy r (Proposed.waits inst l few o same) =
      subst (IsReady table ok junk) (sym same) r
  Proposed-IsReady p p' out roomy r (Proposed.valueless inst l e₁ e₂ nil o acc prep vals) = record {
    keyed = λ k i e. r.keyed k i (sym (prep k) ∙ e);
    apart = λ k i e. ap (λ t. table.get t k) acc ∙ r.apart k i (sym (prep k) ∙ e);
    room = λ k. roomy p'.accept_instances k;
    queue = subst Window.IsValid (sym vals) r.queue;
  }
  Proposed-IsReady p p' out roomy r (Proposed.sends inst q w v l maj g c o gone there vals others) =
      record {
        keyed = λ k i e. r.keyed k i (sym ((others k (ne k i e)).0) ∙ e);
        apart = λ k i e. (others k (ne k i e)).1 ∙ r.apart k i (sym ((others k (ne k i e)).0) ∙ e);
        room = λ k. roomy p'.accept_instances k;
        queue = subst Window.IsValid (sym vals) (Given-queue p inst q w r.queue g);
      }
    where
      ne : (k : ℕ) (i : Instance) → table.get p'.prepare_instances k ≡ some i → k ≢ inst.iid
      ne k i e same = clash (sym e ∙ ap (table.get p'.prepare_instances) same ∙ gone)
        where
          clash : some i ≡ none → ⊥
          clash h = cc

  -- The client's value of an instance whose own is `o`, where `vs` waits in the queue and then `us`: an
  -- instance without one takes the oldest of the queue.
  pub data Client (o : Option Value) (vs us : List Value) : Option Value → Type 0 where
    own : {v : Value} → o ≡ some v → us ≡ vs → Client o vs us (some v)
    taken : {v : Value} → o ≡ none → vs ≡ v ∷ us → Client o vs us (some v)
    empty : o ≡ none → vs ≡ [] → us ≡ [] → Client o vs us none

  -- A request for an instance that was pending with a majority of promises, where `vs` waits in the
  -- queue and then `us`: the promised value goes before that of the client.
  pub record IsRequest (p : Proposer table junk) (r : Accept) (vs us : List Value) : Type 0 where
    pub inst : Instance
    pub pending : table.get p.prepare_instances r.iid ≡ some inst
    pub majority : reached inst.quorum ≡ true
    pub same_ballot : r.ballot ≡ inst.ballot
    pub client : Option Value
    pub given : Client inst.value vs us client
    pub proposed :
        (inst.promised_value ≡ some r.value)
        ⊎ ((inst.promised_value ≡ none) × (client ≡ some r.value))

  -- The requests, one after the other, where `vs` waits in the queue before them and `us` behind.
  abbrev pub AllRequests : Proposer table junk → List Accept → List Value → List Value → Type 0
  AllRequests p [] vs us = us ≡ vs
  AllRequests p (r ∷ rs) vs us = (ws : List Value) × IsRequest p r vs ws × AllRequests p rs ws us

  abbrev pub Requested : ℕ → List Accept → Type 0
  Requested k [] = ⊥
  Requested k (r ∷ rs) = (r.iid ≡ k) ⊎ Requested k rs

  -- What stands at `k` in the two tables is as it was, or has moved to the second table and one of the
  -- requests is for it.
  abbrev pub Kept : Proposer table junk → List Accept → Proposer table junk → ℕ → Type 0
  Kept p rs p' k =
      ((table.get p'.prepare_instances k ≡ table.get p.prepare_instances k)
        × (table.get p'.accept_instances k ≡ table.get p.accept_instances k))
      ⊎ (Requested k rs
          × (table.get p'.prepare_instances k ≡ none)
          × ((inst : Instance) × (table.get p'.accept_instances k ≡ some inst)))

  -- The ids of the requests grow, from one above `k` on.
  abbrev pub Above : ℕ → List Accept → Type 0
  Above k [] = Unit {0}
  Above k (r ∷ rs) = (k < r.iid) × Above r.iid rs

  abbrev pub Ascending : List Accept → Type 0
  Ascending [] = Unit {0}
  Ascending (r ∷ rs) = Above r.iid rs

  -- Nothing is pending, or the pending instance with the smallest id has no majority of promises, or
  -- there is no value for it.
  abbrev pub Stuck : Proposer table junk → Type 0
  Stuck p =
      ((k : ℕ) → table.get p.prepare_instances k ≡ none)
      ⊎ ((inst : Instance) × Least table ok junk p inst
          × ((reached inst.quorum ≡ false)
              ⊎ ((inst.promised_value ≡ none)
                  × (inst.value ≡ none)
                  × (contents junk p.values ≡ []))))

  -- What the loop has sent, and what it leaves.
  pub record Sent (p : Proposer table junk) (rs : List Accept) (p' : Proposer table junk)
      : Type 0 where
    pub ready : IsReady table ok junk p'
    pub in_order : Ascending rs
    pub requested : AllRequests p rs (contents junk p.values) (contents junk p'.values)
    pub stuck : Stuck p'
    pub kept : (k : ℕ) → Kept p rs p' k

  IsRequest-Fewer :
      (p p' : Proposer table junk) (r : Accept) (vs us : List Value)
      → Fewer (table.get p'.prepare_instances) (table.get p.prepare_instances)
      → IsRequest p' r vs us
      → IsRequest p r vs us
  IsRequest-Fewer p p' r vs us less q = record {
    inst = q.inst;
    pending =
        Fewer-some (table.get p.prepare_instances) (table.get p'.prepare_instances) r.iid q.inst
          less q.pending;
    majority = q.majority;
    same_ballot = q.same_ballot;
    client = q.client;
    given = q.given;
    proposed = q.proposed;
  }

  pub AllRequests-Fewer :
      (p p' : Proposer table junk) (rs : List Accept) (vs us : List Value)
      → Fewer (table.get p'.prepare_instances) (table.get p.prepare_instances)
      → AllRequests p' rs vs us
      → AllRequests p rs vs us
  AllRequests-Fewer p p' [] vs us less q = q
  AllRequests-Fewer p p' (r ∷ rs) vs us less (ws, q, qs) =
      (ws, IsRequest-Fewer p p' r vs ws less q, AllRequests-Fewer p p' rs ws us less qs)

  -- A request moves its instance, and the others are as they were.
  pub Kept-sent :
      (p p₁ p' : Proposer table junk) (r : Accept) (rs : List Accept) (moved : Instance)
      → table.get p₁.prepare_instances r.iid ≡ none
      → table.get p₁.accept_instances r.iid ≡ some moved
      → ((k : ℕ)
          → k ≢ r.iid
          → (table.get p₁.prepare_instances k ≡ table.get p.prepare_instances k)
            × (table.get p₁.accept_instances k ≡ table.get p.accept_instances k))
      → ((k : ℕ) → Kept p₁ rs p' k)
      → (k : ℕ) → Kept p (r ∷ rs) p' k
  Kept-sent p p₁ p' r rs moved gone there others later k = elim (Bool-cases (r.iid == k)) [
    | inl same ↦
        let at = (==_iff r.iid k).0 same in
        elim (later k) [
          | inl (prep, acc) ↦ inr (
            inl at,
            prep ∙ subst (λ i. table.get p₁.prepare_instances i ≡ none) at gone,
            (moved, acc ∙ subst (λ i. table.get p₁.accept_instances i ≡ some moved) at there),
          )
          | inr (in_rest, out, there₂) ↦ inr (inr in_rest, out, there₂)
        ]
    | inr apart ↦ elim (later k) [
      | inl (prep, acc) ↦
          let (prep₁, acc₁) = others k (λ e. absurd (ground (arith, apart, e))) in
          inl (prep ∙ prep₁, acc ∙ acc₁)
      | inr (in_rest, out, there₂) ↦ inr (inr in_rest, out, there₂)
    ]
  ]

  -- The requests behind the first one have larger ids.
  pub Above-Least :
      (p p' : Proposer table junk) (inst : Instance) (rs : List Accept) (vs us : List Value)
      → IsReady table ok junk p
      → Least table ok junk p inst
      → table.get p'.prepare_instances inst.iid ≡ none
      → Fewer (table.get p'.prepare_instances) (table.get p.prepare_instances)
      → AllRequests p' rs vs us
      → Ascending rs
      → Above inst.iid rs
  Above-Least p p' inst [] vs us r l gone less qs up = tt
  Above-Least p p' inst (x ∷ xs) vs us r l gone less (ws, q, qs) up = (larger, up)
    where
      was : IsRequest p x vs ws
      was = IsRequest-Fewer p p' x vs ws less q

      differs : x.iid ≢ inst.iid
      differs same = clash (sym q.pending ∙ ap (table.get p'.prepare_instances) same ∙ gone)
        where
          clash : some q.inst ≡ none → ⊥
          clash h = cc

      larger : inst.iid < x.iid
      larger =
          omega
            (arith, l.least x.iid was.inst was.pending, r.keyed x.iid was.inst was.pending, differs)

  -- The request of an instance that `proposer_accept` has sent.
  pub IsRequest-sent :
      (p : Proposer table junk) (inst : Instance) (q : Carray Value) (w : Option Value) (v : Value)
      → Least table ok junk p inst
      → reached inst.quorum ≡ true
      → Given table ok junk p inst q w
      → (inst.promised_value ≡ some v) ⊎ ((inst.promised_value ≡ none) × (w ≡ some v))
      → IsRequest p
          (record { src = p.id; iid = inst.iid; ballot = inst.ballot; value = v })
          (contents junk p.values)
          (contents junk q)
  IsRequest-sent p inst q w v l maj g c = record {
    inst = inst;
    pending = l.pending;
    majority = maj;
    same_ballot = refl;
    client = w;
    given = by_client w g;
    proposed = c;
  }
    where
      by_client :
          (w : Option Value)
          → Given table ok junk p inst q w
          → Client inst.value (contents junk p.values) (contents junk q) w
      by_client w (Given.own x e same is) =
          subst (Client inst.value (contents junk p.values) (contents junk q)) (sym is)
            (Client.own e (ap (contents junk) same))
      by_client w (Given.taken x e holds whole is) =
          subst (Client inst.value (contents junk p.values) (contents junk q)) (sym is)
            (Client.taken e holds)
      by_client w (Given.empty e nil same is) =
          subst (Client inst.value (contents junk p.values) (contents junk q)) (sym is)
            (Client.empty e nil (ap (contents junk) same ∙ nil))
