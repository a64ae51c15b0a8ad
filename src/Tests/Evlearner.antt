-- ===== src/Tests/Evlearner.antt =====
-- evpaxos/evlearner.c with three acceptors, on the learner that knows instance 1.
use sciascid_libpaxos_d255f.Base.{
  zero, suc, ◌≡◌, refl, none, some, List, [], ◌∷◌, false, ◌==◌, if_some, some_inj, subst, arith,
}
use sciascid_libpaxos_d255f.Types.{Accepted}
use sciascid_libpaxos_d255f.Accepted.{first}
use sciascid_libpaxos_d255f.KHash.Assoc.{assoc}
use sciascid_libpaxos_d255f.Learner.{Instance, Learner}
use sciascid_libpaxos_d255f.Learner.Progress.{Received, started}
use sciascid_libpaxos_d255f.Evlearner.{Delivery, deliver_next_closed, handle_accepted}
use sciascid_libpaxos_d255f.Evlearner.Draining.{deliver_next_closed_lem}
use sciascid_libpaxos_d255f.Evlearner.Chosen.{Valued, AllValued, Drained}
use sciascid_libpaxos_d255f.Evlearner.Handling.{handle_accepted_lem}
use sciascid_libpaxos_d255f.Tests.Samples.{bar, accepted_by, accepted_by-IsWhole}
use sciascid_libpaxos_d255f.Tests.Learner.{
  table, laws, heard, heard_one-IsSound, heard_two-IsSound, knows, knows-IsValid,
}

pub heard_one-Valued : Valued (heard none).acks
heard_one-Valued zero ack e = absurd (cc)
heard_one-Valued (suc zero) ack e = (bar ∷ [], ap_values (some_inj (some_inj e)))
  where
    ap_values : {a : Accepted} → accepted_by 1 ≡ a → a.values ≡ some (bar ∷ [])
    ap_values h = subst (λ (b : Accepted). b.values ≡ some (bar ∷ [])) h refl
heard_one-Valued (suc (suc zero)) ack e = absurd (cc)
heard_one-Valued (suc (suc (suc i))) ack e = absurd (cc)

heard_two-Valued : Valued (heard (some (accepted_by 2))).acks
heard_two-Valued zero ack e = absurd (cc)
heard_two-Valued (suc zero) ack e = heard_one-Valued 1 ack e
heard_two-Valued (suc (suc zero)) ack e = (bar ∷ [], ap_values (some_inj (some_inj e)))
  where
    ap_values : {a : Accepted} → accepted_by 2 ≡ a → a.values ≡ some (bar ∷ [])
    ap_values h = subst (λ (b : Accepted). b.values ≡ some (bar ∷ [])) h refl
heard_two-Valued (suc (suc (suc i))) ack e = absurd (cc)

pub knows-AllValued : (inst : Instance) → Valued inst.acks → AllValued table laws (knows inst)
unfolding knows assoc
knows-AllValued inst v k found e =
    if_some (λ i. Valued i.acks) (1 == k) (some inst) none found e
      (λ same is. subst (λ i. Valued i.acks) (some_inj is) v) (λ n. absurd (cc))

deliver_next_closed_lem_example :
    (ds : List Delivery) × (l' : Learner table) × (deliver_next_closed table 2
        (knows (heard (some (accepted_by 2))))
      ≡ some (ds, l'))
    × Drained table laws (knows (heard (some (accepted_by 2)))) ds l'
unfolding knows assoc
deliver_next_closed_lem_example =
    deliver_next_closed_lem table laws 2 (knows (heard (some (accepted_by 2))))
      (knows-IsValid (heard (some (accepted_by 2))) heard_two-IsSound refl)
      (knows-AllValued (heard (some (accepted_by 2))) heard_two-Valued) (omega arith)

handle_accepted_lem_example :
    (l₁ : Learner table) × (ds : List Delivery) × (l' : Learner table) × (handle_accepted table
        (knows (heard none))
        (accepted_by 2)
      ≡ some (ds, l'))
    × Received table laws
        (started table laws (knows (heard none)) (accepted_by 2))
        (accepted_by 2)
        2
        l₁
    × Drained table laws l₁ ds l'
    × AllValued table laws l'
unfolding first knows assoc
handle_accepted_lem_example =
    handle_accepted_lem table laws (knows (heard none)) (accepted_by 2) 2 (bar ∷ [])
      (knows-IsValid (heard none) heard_one-IsSound refl)
      (knows-AllValued (heard none) heard_one-Valued) (omega arith) (accepted_by-IsWhole 2) refl
      refl (omega arith) refl

-- The second acceptor makes the majority: "bar" is delivered, and instance 2 is next.
second_delivers :
    handle_accepted table (knows (heard none)) (accepted_by 2)
    ≡ some (
      record { iid = 1; value = bar } ∷ [],
      record {
        acceptors = 3;
        late_start = false;
        current_iid = 2;
        highest_iid_closed = 1;
        instances = unfold assoc in [];
      },
    )
unfolding handle_accepted knows assoc
second_delivers = refl
