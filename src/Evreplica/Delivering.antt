-- ===== src/Evreplica/Delivering.antt =====
-- `evpaxos_replica_deliver` of evpaxos/evreplica.c: the proposer of a node keeps up with its learner.
use sciascid_libpaxos_d255f.Base.{
  ℕ, ◌≤◌, ◌<◌, ◌≡◌, refl, sym, ap, ◌⊎◌, inl, inr, false, Option, none, some, List, [], ◌∷◌, ◌++◌,
  map, subst, arith,
}
use sciascid_libpaxos_d255f.Types.{Value, Accepted}
use sciascid_libpaxos_d255f.Accepted.{first, IsWhole}
use sciascid_libpaxos_d255f.Carray.Window
use sciascid_libpaxos_d255f.KHash.{KHash, IsTable}
use sciascid_libpaxos_d255f.Storage.{StorageApi}
use sciascid_libpaxos_d255f.Learner
use sciascid_libpaxos_d255f.Learner.{Learner}
use sciascid_libpaxos_d255f.Learner.Progress.{IsValid, Received, started}
use sciascid_libpaxos_d255f.Proposer
use sciascid_libpaxos_d255f.Proposer.{Proposer}
use sciascid_libpaxos_d255f.Proposer.Trimming.{Moved, set_next_iid_lem}
use sciascid_libpaxos_d255f.Evlearner.{Delivery}
use sciascid_libpaxos_d255f.Evlearner.Chosen.{AllValued, Drained}
use sciascid_libpaxos_d255f.Evlearner.Handling.{handle_accepted_lem}
use sciascid_libpaxos_d255f.Evproposer
use sciascid_libpaxos_d255f.Evproposer.{Evproposer}
use sciascid_libpaxos_d255f.Evreplica.{delivered, Replica, deliver_each, learner_accepted}

module _ (s : StorageApi) (learned : KHash Learner.Instance) (table : KHash Proposer.Instance)
    (ok : IsTable table) (junk : Value) where
  -- Every id is at most `n`.
  abbrev pub UpTo : ℕ → List Delivery → Type 0
  UpTo n [] = Unit {0}
  UpTo n (d ∷ ds) = (d.iid ≤ n) × UpTo n ds

  -- The queue of a proposer is valid, if there is one.
  abbrev pub Queued : Option (Evproposer table junk) → Type 0
  Queued none = Unit {0}
  Queued (some p) = Window.IsValid p.state.values

  -- The proposer `p'` is one that `p` has become. Its counter of prepared instances, `next_prepare_iid`,
  -- has not gone back, and is at or above each instance of `ds`: those that it opens next are later.
  abbrev pub Follows :
      Option (Evproposer table junk) → List Delivery → Option (Evproposer table junk) → Type 0
  Follows none ds none = Unit {0}
  Follows none ds (some p') = ⊥
  Follows (some p) ds none = ⊥
  Follows (some p) ds (some p') =
      (p.state.next_prepare_iid ≤ p'.state.next_prepare_iid) × UpTo p'.state.next_prepare_iid ds

  -- One call of `evproposer_set_instance_id`.
  set_instance_id_lem :
      (p : Evproposer table junk) (iid : ℕ)
      → Window.IsValid p.state.values
      → (p' : Evproposer table junk) × (Evproposer.set_instance_id table junk (some p) iid
          ≡ some (some p'))
        × Window.IsValid p'.state.values
        × (p.state.next_prepare_iid ≤ p'.state.next_prepare_iid)
        × (iid ≤ p'.state.next_prepare_iid)
  unfolding Evproposer.set_instance_id
  set_instance_id_lem p iid w =
      let (q, run, c) = set_next_iid_lem table ok junk p.state iid w in
      let (valid, up, at) = by_case q c in (record p { state = q }, rw run refl, valid, up, at)
    where
      by_case :
          (q : Proposer table junk)
          → ((iid ≤ p.state.next_prepare_iid) × (q ≡ p.state))
            ⊎ ((p.state.next_prepare_iid < iid) × Moved table ok junk p.state iid q)
          → Window.IsValid q.values
            × (p.state.next_prepare_iid ≤ q.next_prepare_iid)
            × (iid ≤ q.next_prepare_iid)
      by_case q (inl (le, same)) =
          let next = ap (λ (x : Proposer table junk). x.next_prepare_iid) same in
          (
            subst (λ (x : Proposer table junk). Window.IsValid x.values) (sym same) w,
            omega (arith, next),
            omega (arith, next, le),
          )
      by_case q (inr (lt, m)) = (m.queue, omega (arith, m.next, lt), omega (arith, m.next))

  Follows-none :
      (d : Delivery) (ds : List Delivery) (p' : Option (Evproposer table junk))
      → Follows none ds p'
      → Follows none (d ∷ ds) p'
  Follows-none d ds none f = tt
  Follows-none d ds (some p') f = f

  Follows-next :
      (p p₁ : Evproposer table junk) (d : Delivery) (ds : List Delivery)
      (p' : Option (Evproposer table junk))
      → p.state.next_prepare_iid ≤ p₁.state.next_prepare_iid
      → d.iid ≤ p₁.state.next_prepare_iid
      → Follows (some p₁) ds p'
      → Follows (some p) (d ∷ ds) p'
  Follows-next p p₁ d ds none up at f = f
  Follows-next p p₁ d ds (some p') up at (f, rest) =
      (omega (arith, up, f), (omega (arith, at, f), rest))

  deliver_each_lem :
      (ds : List Delivery) (p : Option (Evproposer table junk))
      → Queued p
      → (p' : Option (Evproposer table junk)) × (deliver_each s learned table junk ds p ≡ some p')
        × Queued p'
        × Follows p ds p'
  unfolding deliver_each Evproposer.set_instance_id
  deliver_each_lem [] none w = (none, refl, tt, tt)
  deliver_each_lem [] (some p) w = (some p, refl, w, (omega arith, tt))
  deliver_each_lem (d ∷ ds) none w =
      let (p', run, q, f) = deliver_each_lem ds none tt in (p', run, q, Follows-none d ds p' f)
  deliver_each_lem (d ∷ ds) (some p) w =
      let (p₁, run, w₁, up, at) = set_instance_id_lem p d.iid w in
      let (p', rest, q, f) = deliver_each_lem ds (some p₁) w₁ in
      (p', rw run rest, q, Follows-next p p₁ d ds p' up at f)

  -- The learner's callback in a node, where the queue of the node's proposer is valid, ends and never
  -- fails under the conditions under which `evlearner_handle_accepted` does not. It delivers chosen
  -- values in order, and leaves the acceptor as it was and the proposer, if the node has one, with a
  -- valid queue. The proposer's `next_prepare_iid`, from which it counts the instances that it opens,
  -- has not gone back and is then at or above every delivered instance. What the proposer has open by
  -- then is not part of this.
  pub learner_accepted_lem :
      (okl : IsTable learned) (r : Replica s learned table junk) (ack : Accepted) (j : ℕ)
      (vs : List Value)
      → IsValid learned okl r.learner
      → AllValued learned okl r.learner
      → 0 < ack.iid
      → IsWhole ack
      → ack.values ≡ some vs
      → first ack.aids ≡ some j
      → j < r.learner.acceptors
      → learned.no_memory r.learner.instances ack.iid ≡ false
      → Queued r.proposer
      → (r' : Replica s learned table junk) × (ds : List Delivery) × (l : Learner learned)
        × (learner_accepted s learned table junk r ack ≡ some r')
        × Received learned okl (started learned okl r.learner ack) ack j l
        × Drained learned okl l ds r'.learner
        × (r'.done ≡ r.done ++ map delivered ds)
        × Queued r'.proposer
        × Follows r.proposer ds r'.proposer
        × (r'.acceptor ≡ r.acceptor)
  unfolding learner_accepted
  learner_accepted_lem okl r ack j vs w vals pos wa e aid lt room q =
      let (l, ds, l', run, received, d, _) =
        handle_accepted_lem learned okl r.learner ack j vs w vals pos wa e aid lt room in
      let (p', moved, valid, f) = deliver_each_lem ds r.proposer q in
      (
        record r { learner = l'; proposer = p'; done = r.done ++ map delivered ds },
        ds,
        l,
        rw (run, moved) refl,
        received,
        d,
        refl,
        valid,
        f,
        refl,
      )
