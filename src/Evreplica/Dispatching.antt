-- ===== src/Evreplica/Dispatching.antt =====
-- What `evpaxos_replica_init` of evpaxos/evreplica.c subscribes, and what `dispatch_message` of
-- evpaxos/peers.c then does with a message.
use sciascid_libpaxos_d255f.Base.{
  ℕ, ◌≡◌, refl, inl, inr, Bool, true, false, Option, none, some, List, [], ◌++◌, if◌then◌else◌,
  Bool-cases, ◌>>=◌,
}
use sciascid_libpaxos_d255f.Types.{Value, Prepare, Accepted, Message}
use sciascid_libpaxos_d255f.KHash.{KHash}
use sciascid_libpaxos_d255f.Storage.{StorageApi}
use sciascid_libpaxos_d255f.Learner
use sciascid_libpaxos_d255f.Proposer
use sciascid_libpaxos_d255f.Proposer.{Timeval}
use sciascid_libpaxos_d255f.Evacceptor
use sciascid_libpaxos_d255f.Evproposer
use sciascid_libpaxos_d255f.Peers.{Address}
use sciascid_libpaxos_d255f.Peers.Reading.{Subscription, dispatch}
use sciascid_libpaxos_d255f.Evreplica.{
  Replica, has_proposer, with_acceptor, of_proposer, learner_accepted, acceptor_subs, proposer_subs,
  learner_subs, init_subs,
}

bind-some {ℓ} : {A : Type ℓ} (o : Option A) → (do a ← o; some a) ≡ o
bind-some none = refl
bind-some (some a) = refl

bind-end {ℓ} :
    {A : Type ℓ} (o : Option A) (f : A → Option A) → (do a ← o; b ← f a; some b) ≡ (do a ← o; f a)
bind-end none f = refl
bind-end (some a) f = bind-some (f a)

bind-chain {ℓ} :
    {A : Type ℓ} (o : Option A) (f g : A → Option A)
    → (do a ← o; b ← f a; c ← g b; some c) ≡ (do a ← o; b ← f a; g b)
bind-chain none f g = refl
bind-chain (some a) f g = bind-end (f a) g

module _ (s : StorageApi) (learned : KHash Learner.Instance) (table : KHash Proposer.Instance)
    (junk : Value) where
  -- What a node does with the messages that more than one of its parts may see.
  pub record Dispatches (clock later : ℕ → Timeval) (own : Address)
      (subs : List (Subscription (Replica s learned table junk))) : Type 0 where
    pub on_accepted :
        (v : Accepted) (r : Replica s learned table junk)
        → dispatch subs (Message.accepted v) r ≡ (do
          r₁ ← with_acceptor s learned table junk r (Evacceptor.fwd_accepted s r.acceptor v)
          r₂ ←
              if has_proposer own
              then of_proposer s learned table junk
                  (λ p. Evproposer.handle_accepted table junk p later v)
                  r₁
              else some r₁
          learner_accepted s learned table junk r₂ v)
    pub on_promise :
        (v : Accepted) (r : Replica s learned table junk)
        → dispatch subs (Message.promise v) r ≡ (do
          r₁ ← with_acceptor s learned table junk r (Evacceptor.fwd_promise s r.acceptor v)
          if has_proposer own
              then of_proposer s learned table junk
                  (λ p. Evproposer.handle_promise table junk p clock later v)
                  r₁
              else some r₁)
    pub on_client_value :
        (v : Value) (r : Replica s learned table junk)
        → dispatch subs (Message.client_value v) r ≡ (
            if has_proposer own
            then of_proposer s learned table junk
                (λ p. Evproposer.handle_client_value table junk p later v)
                r
            else some r)
    pub on_prepare :
        (v : Prepare) (r : Replica s learned table junk)
        → dispatch subs (Message.prepare v) r
          ≡ with_acceptor s learned table junk r (Evacceptor.handle_prepare s r.acceptor v)

  abbrev all_subs :
      (ℕ → Timeval) → (ℕ → Timeval) → Bool → List (Subscription (Replica s learned table junk))
  all_subs clock later b =
      acceptor_subs s learned table junk
      ++ ((if b then proposer_subs s learned table junk clock later else [])
          ++ learner_subs s learned table junk)

  init_subs-all :
      (clock later : ℕ → Timeval) (own : Address) (b : Bool)
      → has_proposer own ≡ b
      → init_subs s learned table junk clock later own ≡ some (all_subs clock later b)
  unfolding init_subs
  init_subs-all clock later own true e = rw e refl
  init_subs-all clock later own false e = rw e refl

  Dispatches-all :
      (clock later : ℕ → Timeval) (own : Address) (b : Bool)
      → has_proposer own ≡ b
      → Dispatches clock later own (all_subs clock later b)
  unfolding dispatch
  Dispatches-all clock later own true e = record {
    on_accepted = λ v r. rw e (
        bind-chain (with_acceptor s learned table junk r (Evacceptor.fwd_accepted s r.acceptor v))
          (λ r₁.
            of_proposer s learned table junk (λ p. Evproposer.handle_accepted table junk p later v)
              r₁)
          (λ r₂. learner_accepted s learned table junk r₂ v));
    on_promise = λ v r. rw e (
        bind-end (with_acceptor s learned table junk r (Evacceptor.fwd_promise s r.acceptor v))
          (λ r₁.
            of_proposer s learned table junk
              (λ p. Evproposer.handle_promise table junk p clock later v) r₁));
    on_client_value = λ v r. rw e (
        bind-some (
          of_proposer s learned table junk
            (λ p. Evproposer.handle_client_value table junk p later v) r));
    on_prepare = λ v r.
        bind-some (with_acceptor s learned table junk r (Evacceptor.handle_prepare s r.acceptor v));
  }
  Dispatches-all clock later own false e = record {
    on_accepted = λ v r. rw e (
        bind-end (with_acceptor s learned table junk r (Evacceptor.fwd_accepted s r.acceptor v))
          (λ r₂. learner_accepted s learned table junk r₂ v));
    on_promise = λ v r. rw e refl;
    on_client_value = λ v r. rw e refl;
    on_prepare = λ v r.
        bind-some (with_acceptor s learned table junk r (Evacceptor.handle_prepare s r.acceptor v));
  }

  -- The subscriptions of a node always fit into their array. An accepted record is first passed back
  -- by the acceptor, then counted by the proposer, where the node has one, and then taken by the
  -- learner, in this order; a promise goes to the acceptor and then to the proposer; a client's value
  -- is proposed where the node has a proposer and dropped elsewhere; a prepare request goes to the
  -- acceptor only.
  pub init_subs_lem :
      (clock later : ℕ → Timeval) (own : Address)
      → (subs : List (Subscription (Replica s learned table junk))) × (init_subs s learned table
            junk clock later own
          ≡ some subs)
        × Dispatches clock later own subs
  init_subs_lem clock later own = elim (Bool-cases (has_proposer own)) [
    | inl e ↦ (_, init_subs-all clock later own true e, Dispatches-all clock later own true e)
    | inr e ↦ (_, init_subs-all clock later own false e, Dispatches-all clock later own false e)
  ]
