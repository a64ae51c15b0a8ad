-- ===== src/Evlearner/Chosen.antt =====
-- What `evlearner_deliver_next_closed` of evpaxos/evlearner.c may deliver, and what that leaves.
use sciascid_libpaxos_d255f.Base.{
  ℕ, ◌+◌, ◌%◌, ◌≤◌, ◌<◌, ◌≡◌, refl, ◌∙◌, ◌⊎◌, inr, u32_mod, Option, none, some, List, [], ◌∷◌,
  get_elem?, subst, arith,
}
use sciascid_libpaxos_d255f.Types.{Value, Accepted, paxos_quorum}
use sciascid_libpaxos_d255f.Accepted.{first, ballot_of, WholeValues, stored_value, stored_values}
use sciascid_libpaxos_d255f.KHash.{KHash, IsTable}
use sciascid_libpaxos_d255f.KHash.Held.{Fewer, Fewer-trans, Fewer-some}
use sciascid_libpaxos_d255f.Learner.{Instance, Learner}
use sciascid_libpaxos_d255f.Learner.Votes.{votes}
use sciascid_libpaxos_d255f.Learner.Progress.{IsValid}
use sciascid_libpaxos_d255f.Evlearner.{Delivery}

-- The ids of what is delivered are `k`, `k + 1`, … up to the one before `k'`.
abbrev pub Consecutive : ℕ → List Delivery → ℕ → Type 0
Consecutive k [] k' = k' ≡ k
Consecutive k (d ∷ ds) k' = (d.iid ≡ k) × Consecutive ((k + 1) % u32_mod) ds k'

-- Every record of the array has values.
abbrev pub Valued : List (Option Accepted) → Type 0
Valued acks =
    (i : ℕ) (ack : Accepted)
    → get_elem? acks i ≡ some (some ack)
    → (vs : List Value) × (ack.values ≡ some vs)

-- Copies of values that are there are there, and the first one has the same bytes.
pub first_value :
    (n m : ℕ) (p q : Option (List Value)) (vs : List Value)
    → 0 < n
    → 0 < m
    → WholeValues n p
    → p ≡ some vs
    → WholeValues m q
    → stored_values q ≡ stored_values p
    → (v w : Value) × (first p ≡ some v) × (first q ≡ some w) × (stored_value w ≡ stored_value v)
unfolding first stored_values
first_value n m none q vs pos pos' wp e wq same = absurd (cc)
first_value n m (some xs) none vs pos pos' wp e wq same = absurd (cc)
first_value n m (some []) q vs pos pos' wp e wq same = absurd (omega (arith, pos, wp.0))
first_value n m (some (x ∷ xs)) (some []) vs pos pos' wp e wq same =
    absurd (omega (arith, pos', wq.0))
first_value n m (some (x ∷ xs)) (some (y ∷ ys)) vs pos pos' wp e wq same =
    (x, y, refl, refl, heads same)
  where
    heads :
        {a b : Value} {us ws : List Value}
        → ◌≡◌ {A = Option (List Value)} (some (a ∷ us)) (some (b ∷ ws))
        → a ≡ b
    heads e = cc

module _ (table : KHash Instance) (ok : IsTable table) where
  -- Every instance of the learner has records with values only.
  abbrev pub AllValued : Learner table → Type 0
  AllValued l = (k : ℕ) (inst : Instance) → table.get l.instances k ≡ some inst → Valued inst.acks

  -- The value was chosen: a majority of acceptors has last accepted the instance with one ballot,
  -- and it is the first value in the record of one of them.
  pub record IsChosen (l : Learner table) (d : Delivery) : Type 0 where
    pub inst : Instance
    pub at : ℕ
    pub ack : Accepted
    pub value : Value
    pub found : table.get l.instances d.iid ≡ some inst
    pub majority : paxos_quorum l.acceptors ≤ votes inst.last_update_ballot inst.acks
    pub accepted : get_elem? inst.acks at ≡ some (some ack)
    pub agrees : ballot_of ack ≡ inst.last_update_ballot
    pub valued : first ack.values ≡ some value
    pub same_bytes : stored_value d.value ≡ stored_value value

  abbrev pub AllChosen : Learner table → List Delivery → Type 0
  AllChosen l [] = Unit {0}
  AllChosen l (d ∷ ds) = IsChosen l d × AllChosen l ds

  -- No majority agrees on the current instance.
  abbrev pub Waits : Learner table → Type 0
  Waits l =
      (table.get l.instances l.current_iid ≡ none)
      ⊎ ((inst : Instance) × (table.get l.instances l.current_iid ≡ some inst)
          × (votes inst.last_update_ballot inst.acks < paxos_quorum l.acceptors))

  -- What the loop has delivered, and what it leaves.
  pub record Drained (l : Learner table) (ds : List Delivery) (l' : Learner table) : Type 0 where
    pub valid : IsValid table ok l'
    pub same_acceptors : l'.acceptors ≡ l.acceptors
    pub in_order : Consecutive l.current_iid ds l'.current_iid
    pub chosen : AllChosen l ds
    pub waits : Waits l'
    pub fewer : Fewer (table.get l'.instances) (table.get l.instances)

  pub Drained-Waits :
      (l l' : Learner table)
      → IsValid table ok l'
      → Waits l'
      → ((k : ℕ) → table.get l'.instances k ≡ table.get l.instances k)
      → l'.current_iid ≡ l.current_iid
      → l'.acceptors ≡ l.acceptors
      → Drained l [] l'
  Drained-Waits l l' w stop same iid n = record {
    valid = w;
    same_acceptors = n;
    in_order = iid;
    chosen = tt;
    waits = stop;
    fewer = λ k. inr (same k);
  }

  -- What is chosen behind a delivery was so before it.
  IsChosen-Fewer :
      (l l' : Learner table) (d : Delivery)
      → Fewer (table.get l'.instances) (table.get l.instances)
      → l'.acceptors ≡ l.acceptors
      → IsChosen l' d
      → IsChosen l d
  IsChosen-Fewer l l' d less n c = record {
    inst = c.inst;
    at = c.at;
    ack = c.ack;
    value = c.value;
    found = Fewer-some (table.get l.instances) (table.get l'.instances) d.iid c.inst less c.found;
    majority =
        subst (λ m. paxos_quorum m ≤ votes c.inst.last_update_ballot c.inst.acks) n c.majority;
    accepted = c.accepted;
    agrees = c.agrees;
    valued = c.valued;
    same_bytes = c.same_bytes;
  }

  AllChosen-Fewer :
      (l l' : Learner table) (ds : List Delivery)
      → Fewer (table.get l'.instances) (table.get l.instances)
      → l'.acceptors ≡ l.acceptors
      → AllChosen l' ds
      → AllChosen l ds
  AllChosen-Fewer l l' [] less n c = tt
  AllChosen-Fewer l l' (d ∷ ds) less n (c, cs) =
      (IsChosen-Fewer l l' d less n c, AllChosen-Fewer l l' ds less n cs)

  -- One delivery and then the others.
  pub Drained-more :
      (l l₁ l' : Learner table) (d : Delivery) (ds : List Delivery)
      → IsChosen l d
      → d.iid ≡ l.current_iid
      → l₁.current_iid ≡ (l.current_iid + 1) % u32_mod
      → l₁.acceptors ≡ l.acceptors
      → Fewer (table.get l₁.instances) (table.get l.instances)
      → Drained l₁ ds l'
      → Drained l (d ∷ ds) l'
  Drained-more l l₁ l' d ds c at next n less r = record {
    valid = r.valid;
    same_acceptors = r.same_acceptors ∙ n;
    in_order = (at, subst (λ k. Consecutive k ds l'.current_iid) next r.in_order);
    chosen = (c, AllChosen-Fewer l l₁ ds less n r.chosen);
    waits = r.waits;
    fewer =
        Fewer-trans (table.get l.instances) (table.get l₁.instances) (table.get l'.instances) less
          r.fewer;
  }

  pub AllValued-Fewer :
      (l l' : Learner table)
      → Fewer (table.get l'.instances) (table.get l.instances)
      → AllValued l
      → AllValued l'
  AllValued-Fewer l l' less vs k inst e =
      vs k inst (Fewer-some (table.get l.instances) (table.get l'.instances) k inst less e)
