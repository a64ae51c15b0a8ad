-- ===== src/Learner/Progress.antt =====
-- `learner_receive_accepted` of paxos/learner.c.
use sciascid_libpaxos_d255f.Base.{
  ℕ, zero, suc, ◌≤◌, ◌<◌, ◌≡◌, ◌≢◌, refl, sym, ap, ◌∙◌, ◌⊎◌, inl, inr, Bool, true, false, not,
  Option, none, some, length-replicate, replicate, ltb, ◌==◌, if◌then◌else◌, ◌>>◌, require, ◌&&◌,
  Bool-cases, Option-cases, ==_iff, ==_refl, if_some, subst, some_inj, arith,
}
use sciascid_libpaxos_d255f.Types.{Accepted}
use sciascid_libpaxos_d255f.Accepted.{first, IsWhole}
use sciascid_libpaxos_d255f.KHash.{KHash, IsTable}
use sciascid_libpaxos_d255f.KHash.Changes.{put-other}
use sciascid_libpaxos_d255f.Learner.{
  Instance, Learner, instance_new, get_or_create, receive_open, receive_started, receive_accepted,
}
use sciascid_libpaxos_d255f.Learner.Votes.{AllAcks}
use sciascid_libpaxos_d255f.Learner.Closing.{IsSound, Checked, has_quorum_lem}
use sciascid_libpaxos_d255f.Learner.Update.{Updated, instance_update_lem}

AllAcks-replicate : (k j n : ℕ) → AllAcks k j (replicate n none)
AllAcks-replicate k j zero = tt
AllAcks-replicate k j (suc n) = AllAcks-replicate k (suc j) n

instance_new-IsSound : (n k : ℕ) → IsSound n k (instance_new n)
unfolding instance_new
instance_new-IsSound n k = record {
  sized = length-replicate n none;
  whole = AllAcks-replicate k 0 n;
  named = inr (refl, refl);
  final_agrees = λ i h. absurd (cc);
}

-- An instance in the table: it has the id that is its key, which is not 0, and is sound.
pub record IsHeld (n k : ℕ) (inst : Instance) : Type 0 where
  pub pos_key : 0 < k
  pub sound : IsSound n k inst
  pub iid_is : inst.iid ≡ k

module _ (table : KHash Instance) (ok : IsTable table) where
  -- Every instance of the learner is one that its table may hold.
  abbrev pub IsValid : Learner table → Type 0
  IsValid l =
      (k : ℕ) (inst : Instance) → table.get l.instances k ≡ some inst → IsHeld l.acceptors k inst

  -- What `learner_receive_accepted` does, behind its test of `late_start`.
  pub data Received (l : Learner table) (ack : Accepted) (j : ℕ) (l' : Learner table) : Type 0 where
    dropped : ack.iid < l.current_iid → l' ≡ l → Received l ack j l'
    taken :
        (inst updated inst' : Instance) (done : Bool)
        → l.current_iid ≤ ack.iid
        → (table.get l.instances ack.iid ≡ some inst)
          ⊎ ((table.get l.instances ack.iid ≡ none) × (inst ≡ instance_new l.acceptors))
        → Updated l.acceptors ack.iid inst ack j updated
        → Checked l.acceptors ack.iid updated done inst'
        → table.get l'.instances ack.iid ≡ some inst'
        → ((k : ℕ) → k ≢ ack.iid → table.get l'.instances k ≡ table.get l.instances k)
        → l'.current_iid ≡ l.current_iid
        → l'.highest_iid_closed
          ≡ (if done && ltb l.highest_iid_closed ack.iid then ack.iid else l.highest_iid_closed)
        → Received l ack j l'

  get_or_create_lem :
      (l : Learner table) (k : ℕ)
      → IsValid l
      → table.no_memory l.instances k ≡ false
      → (inst : Instance) × (get_or_create table l k ≡ some inst)
        × IsSound l.acceptors k inst
        × ((table.get l.instances k ≡ some inst)
            ⊎ ((table.get l.instances k ≡ none) × (inst ≡ instance_new l.acceptors)))
  unfolding get_or_create
  get_or_create_lem l k w room = elim (Option-cases (table.get l.instances k)) [
    | inr (inst, e) ↦ (inst, look e, (w k inst e).sound, inl e)
    | inl e ↦ (
      instance_new l.acceptors,
      look e ∙ rw room refl,
      instance_new-IsSound l.acceptors k,
      inr (e, refl),
    )
  ]
    where
      look :
          {o : Option Instance}
          → table.get l.instances k ≡ o
          → get_or_create table l k ≡ elim o [
            | some inst ↦ some inst
            | none ↦ (do
              require (not (table.no_memory l.instances k))
              some (instance_new l.acceptors))
          ]
      look e =
          ap
            (λ (o : Option Instance). elim o [
              | some inst ↦ some inst
              | none ↦ (do
                require (not (table.no_memory l.instances k))
                some (instance_new l.acceptors))
            ])
            e

  -- The learner after a message that it has taken.
  abbrev after : Learner table → ℕ → Bool → Instance → Learner table
  after l k done inst = record l {
    instances = table.put l.instances k inst;
    highest_iid_closed =
        if done && ltb l.highest_iid_closed inst.iid then inst.iid else l.highest_iid_closed;
  }

  after-IsValid :
      (l : Learner table) (k : ℕ) (done : Bool) (inst : Instance)
      → IsValid l
      → IsHeld l.acceptors k inst
      → IsValid (after l k done inst)
  after-IsValid l k done inst w held x found e =
      if_some (λ i. IsHeld l.acceptors x i) (k == x) (some inst) (table.get l.instances x) found
        (sym (ok.get-put l.instances k x inst) ∙ e)
        (λ same is.
          subst (λ i. IsHeld l.acceptors x i) (some_inj is)
            (subst (λ y. IsHeld l.acceptors y inst) ((==_iff k x).0 same) held))
        (λ there. w x found there)

  receive_open_lem :
      (l : Learner table) (ack : Accepted) (j : ℕ)
      → IsValid l
      → 0 < ack.iid
      → IsWhole ack
      → first ack.aids ≡ some j
      → j < l.acceptors
      → table.no_memory l.instances ack.iid ≡ false
      → l.current_iid ≤ ack.iid
      → (l' : Learner table) × (receive_open table l ack ≡ some l')
        × IsValid l'
        × (l'.acceptors ≡ l.acceptors)
        × Received l ack j l'
  unfolding receive_open
  receive_open_lem l ack j w pos wa aid lt room due =
      let (inst, got, sound, from) = get_or_create_lem l ack.iid w room in
      let (upd, run, u) =
        instance_update_lem l.acceptors ack.iid j inst ack pos sound wa refl aid lt in
      let (done, inst', run', ch) = has_quorum_lem l.acceptors ack.iid upd u.sound u.iid_is in
      (
        after l ack.iid done inst',
        rw (got, run, run') refl,
        after-IsValid l ack.iid done inst' w
            (record { pos_key = pos; sound = ch.sound; iid_is = ch.same_iid ∙ u.iid_is }),
        refl,
        Received.taken inst upd inst' done due from u ch
            (ok.get-put l.instances ack.iid ack.iid inst' ∙ rw (==_refl ack.iid) refl)
            (λ k ne. put-other table ok l.instances ack.iid k inst' ne) refl
            (ap (λ i. if done && ltb l.highest_iid_closed i then i else l.highest_iid_closed)
              (ch.same_iid ∙ u.iid_is)),
      )

  -- The learner behind the test of `late_start`: a late learner starts at its first message.
  abbrev pub started : Learner table → Accepted → Learner table
  started l ack = if l.late_start then record l { late_start = false; current_iid = ack.iid } else l

  receive_started-test :
      (l : Learner table) (ack : Accepted) (b : Bool)
      → ltb ack.iid l.current_iid ≡ b
      → receive_started table l ack ≡ (if b then some l else receive_open table l ack)
  unfolding receive_started
  receive_started-test l ack b e = rw e refl

  receive_started_lem :
      (l : Learner table) (ack : Accepted) (j : ℕ)
      → IsValid l
      → 0 < ack.iid
      → IsWhole ack
      → first ack.aids ≡ some j
      → j < l.acceptors
      → table.no_memory l.instances ack.iid ≡ false
      → (l' : Learner table) × (receive_started table l ack ≡ some l')
        × IsValid l'
        × (l'.acceptors ≡ l.acceptors)
        × Received l ack j l'
  receive_started_lem l ack j w pos wa aid lt room = elim (Bool-cases (ltb ack.iid l.current_iid)) [
    | inl old ↦
        (l, receive_started-test l ack true old, w, refl, Received.dropped (ground arith) refl)
    | inr due ↦
        rw (receive_started-test l ack false due)
          (receive_open_lem l ack j w pos wa aid lt room (ground arith))
  ]

  -- The same behind the test of `late_start`, which answers `b`.
  receive_late_lem :
      (b : Bool) (l : Learner table) (ack : Accepted) (j : ℕ)
      → IsValid l
      → 0 < ack.iid
      → IsWhole ack
      → first ack.aids ≡ some j
      → j < l.acceptors
      → table.no_memory l.instances ack.iid ≡ false
      → let l₀ : Learner table =
          if b then record l { late_start = false; current_iid = ack.iid } else l in
        (l' : Learner table) × (receive_started table l₀ ack ≡ some l')
        × IsValid l'
        × (l'.acceptors ≡ l.acceptors)
        × Received l₀ ack j l'
  receive_late_lem true l ack j w pos wa aid lt room =
      receive_started_lem (record l { late_start = false; current_iid = ack.iid }) ack j w pos wa
        aid lt room
  receive_late_lem false l ack j w pos wa aid lt room =
      receive_started_lem l ack j w pos wa aid lt room

  -- `learner_receive_accepted` never faults on a valid learner and a message of an instance other
  -- than 0, from one of the acceptors and with all its arrays, if the table has memory. It drops a
  -- message of an instance that is delivered already; else it updates and checks the instance of
  -- the message, which it makes if need be, changes no other, and keeps the highest id of those it
  -- has closed. The learner stays valid.
  pub receive_accepted_lem :
      (l : Learner table) (ack : Accepted) (j : ℕ)
      → IsValid l
      → 0 < ack.iid
      → IsWhole ack
      → first ack.aids ≡ some j
      → j < l.acceptors
      → table.no_memory l.instances ack.iid ≡ false
      → (l' : Learner table) × (receive_accepted table l ack ≡ some l')
        × IsValid l'
        × (l'.acceptors ≡ l.acceptors)
        × Received (started l ack) ack j l'
  unfolding receive_accepted
  receive_accepted_lem l ack j w pos wa aid lt room =
      receive_late_lem l.late_start l ack j w pos wa aid lt room
