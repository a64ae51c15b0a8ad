-- ===== src/Acceptor/Accepting.antt =====
-- `acceptor_receive_accept` of paxos/acceptor.c over a working storage.
use sciascid_libpaxos_d255f.Base.{
  ℕ, ◌≤◌, ◌<◌, ◌≡◌, refl, inl, inr, Bool, true, false, Option, none, some, [], ◌∷◌, leb, ◌==◌,
  if◌then◌else◌, Bool-cases, leb→le, arith,
}
use sciascid_libpaxos_d255f.Types.{Value, Accepted, Accept, Message, accepted, preempted}
use sciascid_libpaxos_d255f.Accepted.{null_value, first, WholeValue, IsWhole, stored_value, stored}
use sciascid_libpaxos_d255f.Storage.{StorageApi, IsStorage}
use sciascid_libpaxos_d255f.Acceptor.{Acceptor, commit, accept_new, accept_found, receive_accept}
use sciascid_libpaxos_d255f.Acceptor.Convert.{accept_to_accepted}
use sciascid_libpaxos_d255f.Acceptor.Steps.{
  Unchanged, Recorded, Answers, IfCommitted, Ignores, commit-Unchanged, commit-IfCommitted,
  commit-IsValid, Unchanged-IsValid, Recorded-IsValid, begun, begun-Unchanged, begun-IsValid,
  Unchanged-trans, Unchanged-refl, Recorded-Unchanged, Unchanged-Recorded,
}
use sciascid_libpaxos_d255f.Acceptor.Valid.{
  ballot_of, ballot_in, first-ballots, clone_value-whole, IsValid, record_at,
}

-- The record of an accepted request, whose value is `v`.
abbrev pub accepted_record : ℕ → Accept → Value → Accepted
accepted_record id req v = record {
  src = req.src;
  iid = req.iid;
  ballot_0 = req.ballot;
  value_ballot_0 = req.ballot;
  n_aids = 1;
  aids = some (id ∷ []);
  value_0 = null_value;
  values = some (v ∷ []);
  ballots = some (req.ballot ∷ []);
  value_ballots = some (req.ballot ∷ []);
}

module _ (s : StorageApi) (st : IsStorage s) where
  -- The outcomes of `acceptor_receive_accept`. An answer is missing exactly where the request is
  -- ignored or the commit fails.
  pub data AcceptOutcome (a : Acceptor s) (req : Accept) (out : Option Message) (a' : Acceptor s)
      : Type 0 where
    -- The instance is trimmed, or the storage refuses.
    ignored :
        (v : Value)
        → stored_value v ≡ stored_value req.value
        → Ignores s st a req.iid req.ballot (accepted_record a.id req v)
        → out ≡ none
        → Unchanged s st a a'
        → AcceptOutcome a req out a'
    -- No record has a larger ballot: the value is stored, and then the answer sent.
    accepts :
        (v : Value) (h : s.Handle)
        → a.trim_iid < req.iid
        → (s.tx_begin a.store).0 ≡ true
        → ballot_in (record_at s st a req.iid) ≤ req.ballot
        → stored_value v ≡ stored_value req.value
        → s.put (s.tx_begin a.store).1 (accepted_record a.id req v) ≡ some (true, h)
        → Recorded s st a req.iid (stored (accepted_record a.id req v)) a'
        → IfCommitted s st h (some (accepted (accepted_record a.id req v))) out
        → AcceptOutcome a req out a'
    -- The record has a larger ballot, which is the answer.
    preempts :
        a.trim_iid < req.iid
        → (s.tx_begin a.store).0 ≡ true
        → req.ballot < ballot_in (record_at s st a req.iid)
        → Unchanged s st a a'
        → IfCommitted s st
            (s.tx_begin a.store).1
            (some (
              preempted (record {
                aid = a.id;
                iid = req.iid;
                ballot = ballot_in (record_at s st a req.iid);
              })))
            out
        → AcceptOutcome a req out a'

  accepted_record-Whole :
      (id : ℕ) (req : Accept) (v : Value) → WholeValue v → IsWhole (accepted_record id req v)
  accepted_record-Whole id req v w = record {
    some_aid = omega arith;
    whole_aids = refl;
    whole_values = (refl, (w, tt));
    whole_ballots = refl;
    whole_value_ballots = refl;
  }

  -- The storage has taken the record, or not.
  accept_put :
      (a : Acceptor s) (req : Accept) (v : Value) (done : Bool) (h : s.Handle)
      → IsValid s st a
      → a.trim_iid < req.iid
      → (s.tx_begin a.store).0 ≡ true
      → ballot_in (record_at s st a req.iid) ≤ req.ballot
      → stored_value v ≡ stored_value req.value
      → accept_to_accepted a.id req ≡ some (accepted_record a.id req v)
      → s.put (begun s st a).store (accepted_record a.id req v) ≡ some (done, h)
      → st.IsValid h
      → ((k : ℕ)
          → st.records h k ≡ (
              if done
              then (if req.iid == k
                  then some (stored (accepted_record a.id req v))
                  else record_at s st (begun s st a) k)
              else record_at s st (begun s st a) k))
      → Answers s st (AcceptOutcome a req) (accept_new s (begun s st a) req)
  unfolding accept_new first stored
  accept_put a req v true h w new beg fits same made put valid recs = (
    (commit s b m).0,
    (commit s b m).1,
    rw (made, put),
    commit-IsValid s st b m (
        Recorded-IsValid s st a b req.iid (stored (accepted_record a.id req v)) written valid refl
          w),
    AcceptOutcome.accepts v h new beg fits same put
        (Recorded-Unchanged s st written (commit-Unchanged s st b m)) (commit-IfCommitted s st b m),
  )
    where
      m : Option Message
      m = some (accepted (accepted_record a.id req v))

      b : Acceptor s
      b = record a { store = h }

      written : Recorded s st a req.iid (stored (accepted_record a.id req v)) b
      written =
          Unchanged-Recorded s st req.iid (stored (accepted_record a.id req v))
            (begun-Unchanged s st a) (record { same_id = refl; same_trim = refl; records = recs })
  accept_put a req v false h w new beg fits same made put valid recs = (
    none,
    b,
    rw (made, put),
    Unchanged-IsValid s st a b kept (st.abort_valid h valid) w,
    AcceptOutcome.ignored v same (Ignores.not_stored h new beg fits put) refl kept,
  )
    where
      b : Acceptor s
      b = record a { store = s.tx_abort h }

      kept : Unchanged s st a b
      kept = record {
        same_id = refl;
        same_trim = refl;
        same_records = λ k. st.abort_lem a.store h (accepted_record a.id req v) k w.store_valid put;
      }

  accept_new_lem :
      (a : Acceptor s) (req : Accept)
      → IsValid s st a
      → WholeValue req.value
      → a.trim_iid < req.iid
      → (s.tx_begin a.store).0 ≡ true
      → ballot_in (record_at s st a req.iid) ≤ req.ballot
      → Answers s st (AcceptOutcome a req) (accept_new s (begun s st a) req)
  unfolding accept_to_accepted
  accept_new_lem a req w whole new beg fits =
      let (v, made, whole', same) = clone_value-whole req.value whole in
      let (done, h, put, valid, recs) =
        st.put_total (begun s st a).store (accepted_record a.id req v)
          (st.begin_valid a.store w.store_valid) (accepted_record-Whole a.id req v whole') in
      accept_put a req v done h w new beg fits same (rw made) put valid recs

  -- The record `r` of the instance has a larger ballot.
  accept_preempted :
      (a : Acceptor s) (req : Accept) (r : Accepted)
      → IsValid s st a
      → a.trim_iid < req.iid
      → (s.tx_begin a.store).0 ≡ true
      → record_at s st a req.iid ≡ some r
      → leb (ballot_of r) req.ballot ≡ false
      → Answers s st (AcceptOutcome a req) (accept_found s (begun s st a) req (some r))
  unfolding accept_found
  accept_preempted a req r w new beg e gt = (
    (commit s b m).0,
    (commit s b m).1,
    rw (first-ballots r whole.0, gt, whole.1, e),
    commit-IsValid s st b m (begun-IsValid s st a w),
    AcceptOutcome.preempts new beg (rw e (ground arith))
        (Unchanged-trans s st (begun-Unchanged s st a) (commit-Unchanged s st b m))
        (commit-IfCommitted s st b m),
  )
    where
      b : Acceptor s
      b = begun s st a

      m : Option Message
      m = some (
          preempted
            (record { aid = a.id; iid = req.iid; ballot = ballot_in (record_at s st a req.iid) }))

      whole : IsWhole r × (r.iid ≡ req.iid)
      whole = st.get_whole a.store req.iid r w.store_valid e

  -- The record of the instance decides.
  accept_found_lem :
      (a : Acceptor s) (req : Accept) (found : Option Accepted)
      → IsValid s st a
      → WholeValue req.value
      → a.trim_iid < req.iid
      → (s.tx_begin a.store).0 ≡ true
      → record_at s st a req.iid ≡ found
      → Answers s st (AcceptOutcome a req) (accept_found s (begun s st a) req found)
  unfolding accept_found
  accept_found_lem a req none w whole new beg e =
      accept_new_lem a req w whole new beg (rw e (omega arith))
  accept_found_lem a req (some r) w whole new beg e =
      elim (Bool-cases (leb (ballot_of r) req.ballot)) [
        | inl le ↦
            rw (first-ballots r (st.get_whole a.store req.iid r w.store_valid e).0, le)
              (accept_new_lem a req w whole new beg (rw e (leb→le (ballot_of r) req.ballot le)))
        | inr gt ↦ accept_preempted a req r w new beg e gt
      ]

  -- `acceptor_receive_accept` of a request with a whole value never faults and keeps the acceptor
  -- valid. It ignores the request, and changes nothing, only if the instance is trimmed or the storage
  -- refuses to begin or to take the record. Else it stores the value if no larger ballot is recorded,
  -- and changes nothing if there is one; and it reports the stored record, or that ballot, exactly if
  -- the commit succeeds. It touches no other instance.
  pub receive_accept_lem :
      (a : Acceptor s) (req : Accept)
      → IsValid s st a
      → WholeValue req.value
      → Answers s st (AcceptOutcome a req) (receive_accept s a req)
  unfolding receive_accept
  receive_accept_lem a req w whole = elim (Bool-cases (leb req.iid a.trim_iid)) [
    | inl old ↦ rw old (
      none,
      a,
      refl,
      w,
      AcceptOutcome.ignored req.value refl (Ignores.trimmed (leb→le req.iid a.trim_iid old)) refl
          (Unchanged-refl s st a),
    )
    | inr new ↦ elim (Bool-cases (s.tx_begin a.store).0) [
      | inl yes_begun ↦
          rw
            (
              new,
              yes_begun,
              st.get_lem (begun s st a).store req.iid (st.begin_valid a.store w.store_valid),
              st.begin_keeps a.store req.iid,
            )
            (accept_found_lem a req (record_at s st a req.iid) w whole (ground arith) yes_begun
              refl)
      | inr not_begun ↦
          rw (new, not_begun)
            (
              none,
              begun s st a,
              refl,
              begun-IsValid s st a w,
              AcceptOutcome.ignored req.value refl (Ignores.not_begun (ground arith) not_begun) refl
                  (begun-Unchanged s st a),
            )
    ]
  ]
