-- ===== src/Tests/Learner.antt =====
-- paxos/learner.c with three acceptors, over a list as its hash table.
use sciascid_libpaxos_d255f.Base.{
  ◌≡◌, refl, inl, Bool, false, Option, none, some, [], ◌∷◌, ◌==◌, if_some, some_inj, subst, arith,
}
use sciascid_libpaxos_d255f.Types.{Accepted}
use sciascid_libpaxos_d255f.Accepted.{first}
use sciascid_libpaxos_d255f.KHash.{KHash, IsTable}
use sciascid_libpaxos_d255f.KHash.Assoc.{assoc, assoc-IsTable}
use sciascid_libpaxos_d255f.Learner.{Instance, Learner, has_quorum, receive_accepted, deliver_next}
use sciascid_libpaxos_d255f.Learner.Closing.{IsSound, Checked, has_quorum_lem}
use sciascid_libpaxos_d255f.Learner.Progress.{
  IsHeld, IsValid, Received, started, receive_accepted_lem,
}
use sciascid_libpaxos_d255f.Learner.Delivery.{Delivered, deliver_next_lem}
use sciascid_libpaxos_d255f.Tests.Samples.{accepted_by, accepted_by-IsWhole}

abbrev pub table : KHash Instance
table = assoc Instance

abbrev pub laws : IsTable table
laws = assoc-IsTable Instance

-- Instance 1 with the message of acceptor 1, and that of acceptor 2 if it is there.
abbrev pub heard : Option Accepted → Instance
heard second = record {
  iid = 1;
  last_update_ballot = 101;
  acks = none ∷ some (accepted_by 1) ∷ second ∷ [];
  final_value = none;
}

pub heard_one-IsSound : IsSound 3 1 (heard none)
unfolding first
heard_one-IsSound = record {
  sized = refl;
  whole = ((accepted_by-IsWhole 1, refl, refl), tt);
  named = inl refl;
  final_agrees = λ i h. absurd (cc);
}

pub heard_two-IsSound : IsSound 3 1 (heard (some (accepted_by 2)))
unfolding first
heard_two-IsSound = record {
  sized = refl;
  whole = ((accepted_by-IsWhole 1, refl, refl), ((accepted_by-IsWhole 2, refl, refl), tt));
  named = inl refl;
  final_agrees = λ i h. absurd (cc);
}

has_quorum_lem_example :
    (closed : Bool) × (inst' : Instance) × (has_quorum (heard (some (accepted_by 2))) 3
      ≡ some (closed, inst'))
    × Checked 3 1 (heard (some (accepted_by 2))) closed inst'
has_quorum_lem_example = has_quorum_lem 3 1 (heard (some (accepted_by 2))) heard_two-IsSound refl

-- A learner that knows that instance only.
unfoldable pub knows : Instance → Learner table
unfolding assoc
knows inst = record {
  acceptors = 3;
  late_start = false;
  current_iid = 1;
  highest_iid_closed = 1;
  instances = (1, inst) ∷ [];
}

pub knows-IsValid :
    (inst : Instance) → IsSound 3 1 inst → inst.iid ≡ 1 → IsValid table laws (knows inst)
unfolding knows assoc
knows-IsValid inst w at k found e =
    if_some (λ i. IsHeld 3 k i) (1 == k) (some inst) none found e
      (λ same is.
        subst (λ i. IsHeld 3 k i) (some_inj is)
          (subst (λ j. IsHeld 3 j inst) (ground arith)
            (record { pos_key = omega arith; sound = w; iid_is = at })))
      (λ n. absurd (cc))

receive_accepted_lem_example :
    (l' : Learner table) × (receive_accepted table (knows (heard none)) (accepted_by 2) ≡ some l')
    × IsValid table laws l'
    × (l'.acceptors ≡ 3)
    × Received table laws
        (started table laws (knows (heard none)) (accepted_by 2))
        (accepted_by 2)
        2
        l'
unfolding first knows assoc
receive_accepted_lem_example =
    receive_accepted_lem table laws (knows (heard none)) (accepted_by 2) 2
      (knows-IsValid (heard none) heard_one-IsSound refl) (omega arith) (accepted_by-IsWhole 2) refl
      (omega arith) refl

deliver_next_lem_example :
    (out : Option Accepted) × (l' : Learner table) × (deliver_next table
        (knows (heard (some (accepted_by 2))))
      ≡ some (out, l'))
    × IsValid table laws l'
    × Delivered table laws (knows (heard (some (accepted_by 2)))) out l'
deliver_next_lem_example =
    deliver_next_lem table laws (knows (heard (some (accepted_by 2))))
      (knows-IsValid (heard (some (accepted_by 2))) heard_two-IsSound refl)

-- Two of three acceptors agree: the learner delivers, and waits for the next instance.
delivers_majority :
    deliver_next table (knows (heard (some (accepted_by 2))))
    ≡ some (
      some (accepted_by 2),
      record {
        acceptors = 3;
        late_start = false;
        current_iid = 2;
        highest_iid_closed = 1;
        instances = unfold assoc in [];
      },
    )
unfolding deliver_next knows assoc
delivers_majority = refl

-- One of three is no majority.
waits_for_majority :
    deliver_next table (knows (heard none))
    ≡ some (
      none,
      record (knows (heard none)) {
        instances = unfold assoc in (1, heard none) ∷ (1, heard none) ∷ [];
      },
    )
unfolding deliver_next knows assoc
waits_for_majority = refl
