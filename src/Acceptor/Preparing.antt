-- ===== src/Acceptor/Preparing.antt =====
-- `acceptor_receive_prepare` of paxos/acceptor.c over a working storage.
use sciascid_libpaxos_d255f.Base.{
  ℕ, ◌≤◌, ◌<◌, ◌≡◌, refl, inl, inr, ℤ, u32_of_int, Bool, true, false, Option, none, some, leb, ◌==◌,
  if◌then◌else◌, Bool-cases, leb→le, subst, arith,
}
use sciascid_libpaxos_d255f.Types.{Value, Accepted, Prepare, Message, promise}
use sciascid_libpaxos_d255f.Accepted.{null_value, zeroed, first, IsWhole, stored_value, stored}
use sciascid_libpaxos_d255f.Storage.{StorageApi, IsStorage}
use sciascid_libpaxos_d255f.Acceptor.{
  Acceptor, prepared, promise_record, prepare_new, prepare_old, prepare_found, receive_prepare,
}
use sciascid_libpaxos_d255f.Acceptor.Convert.{accepted_to_promise}
use sciascid_libpaxos_d255f.Acceptor.Steps.{
  Unchanged, Recorded, Answers, IfCommitted, Ignores, Unchanged-IsValid, Recorded-IsValid, begun,
  begun-Unchanged, begun-IsValid, Unchanged-trans, Unchanged-refl, Recorded-Unchanged,
  Unchanged-Recorded,
}
use sciascid_libpaxos_d255f.Acceptor.Promises.{
  promise_for, value_of, accepted_to_promise-whole, has_aid-own,
}
use sciascid_libpaxos_d255f.Acceptor.Valid.{ballot_of, ballot_in, first-ballots, IsValid, record_at}

-- The record that a prepare overwrites.
abbrev pub or_zeroed : Option Accepted → Accepted
or_zeroed none = zeroed
or_zeroed (some r) = r

module _ (s : StorageApi) (st : IsStorage s) where
  -- The outcomes of `acceptor_receive_prepare`. An answer is missing exactly where the request is
  -- ignored or the commit fails.
  pub data PrepareOutcome (isrc : ℤ) (a : Acceptor s) (req : Prepare) (out : Option Message)
      (a' : Acceptor s) : Type 0 where
    -- The instance is trimmed, or the storage refuses.
    ignored :
        Ignores s st a req.iid req.ballot
          (prepared s a.id isrc req (or_zeroed (record_at s st a req.iid)))
        → out ≡ none
        → Unchanged s st a a'
        → PrepareOutcome isrc a req out a'
    -- No record has a larger ballot: the record is overwritten by one of the request's ballot with
    -- no value, and that is promised.
    prepares :
        (h : s.Handle)
        → a.trim_iid < req.iid
        → (s.tx_begin a.store).0 ≡ true
        → ballot_in (record_at s st a req.iid) ≤ req.ballot
        → s.put
            (s.tx_begin a.store).1
            (prepared s a.id isrc req (or_zeroed (record_at s st a req.iid)))
          ≡ some (true, h)
        → Recorded s st a req.iid
            (stored (prepared s a.id isrc req (or_zeroed (record_at s st a req.iid))))
            a'
        → IfCommitted s st h
            (some (
              promise
                (promise_for (u32_of_int isrc) req.iid req.ballot req.ballot a.id null_value)))
            out
        → PrepareOutcome isrc a req out a'
    -- The record `r` has a larger ballot: it stays, and its ballot and value are the answer.
    keeps :
        (r : Accepted) (value_ballot : ℕ) (v : Value)
        → a.trim_iid < req.iid
        → (s.tx_begin a.store).0 ≡ true
        → record_at s st a req.iid ≡ some r
        → req.ballot < ballot_of r
        → first r.value_ballots ≡ some value_ballot
        → stored_value v ≡ stored_value (value_of r.values)
        → Unchanged s st a a'
        → IfCommitted s st
            (s.tx_begin a.store).1
            (some (promise (promise_for r.src req.iid (ballot_of r) value_ballot a.id v)))
            out
        → PrepareOutcome isrc a req out a'

  -- A commit, and the promise of `acc` if it succeeds.
  promise_record_lem :
      (a : Acceptor s) (acc : Accepted) (m : Message)
      → IsValid s st a
      → accepted_to_promise acc ≡ some m
      → Answers s st
          (λ out a'. Unchanged s st a a' × IfCommitted s st a.store (some m) out)
          (promise_record s a acc)
  unfolding promise_record
  promise_record_lem a acc m w made = elim (Bool-cases (s.tx_commit a.store).0) [
    | inl done ↦ (some m, b, rw (done, made), valid, (kept, rw done refl))
    | inr failed ↦ (none, b, rw failed, valid, (kept, rw failed refl))
  ]
    where
      b : Acceptor s
      b = record a { store = (s.tx_commit a.store).1 }

      kept : Unchanged s st a b
      kept = record { same_id = refl; same_trim = refl; same_records = st.commit_keeps a.store }

      valid : IsValid s st b
      valid = Unchanged-IsValid s st a b kept (st.commit_valid a.store w.store_valid) w

  prepared-Whole :
      (id : ℕ) (isrc : ℤ) (req : Prepare) (acc : Accepted) → IsWhole (prepared s id isrc req acc)
  unfolding prepared
  prepared-Whole id isrc req acc = record {
    some_aid = omega arith;
    whole_aids = refl;
    whole_values = tt;
    whole_ballots = refl;
    whole_value_ballots = refl;
  }

  -- The storage has taken the new record, or not.
  prepare_put :
      (isrc : ℤ) (a : Acceptor s) (req : Prepare) (acc : Accepted) (done : Bool) (h : s.Handle)
      → IsValid s st a
      → a.trim_iid < req.iid
      → (s.tx_begin a.store).0 ≡ true
      → ballot_in (record_at s st a req.iid) ≤ req.ballot
      → or_zeroed (record_at s st a req.iid) ≡ acc
      → s.put (begun s st a).store (prepared s a.id isrc req acc) ≡ some (done, h)
      → st.IsValid h
      → ((k : ℕ)
          → st.records h k ≡ (
              if done
              then (if req.iid == k
                  then some (stored (prepared s a.id isrc req acc))
                  else record_at s st (begun s st a) k)
              else record_at s st (begun s st a) k))
      → Answers s st (PrepareOutcome isrc a req) (prepare_new s isrc (begun s st a) req acc)
  unfolding prepare_new prepared first stored
  prepare_put isrc a req acc true h w new beg fits same put valid recs =
      let (out, a', run, valid', (kept, sent)) =
        promise_record_lem b (prepared s a.id isrc req acc)
          (promise (promise_for (u32_of_int isrc) req.iid req.ballot req.ballot a.id null_value))
          (Recorded-IsValid s st a b req.iid (stored (prepared s a.id isrc req acc)) written valid
            refl w)
          (unfold accepted_to_promise in refl) in
      (
        out,
        a',
        rw put run,
        valid',
        PrepareOutcome.prepares h new beg fits (rw same put)
            (rw same (Recorded-Unchanged s st written kept)) sent,
      )
    where
      b : Acceptor s
      b = record a { store = h }

      written : Recorded s st a req.iid (stored (prepared s a.id isrc req acc)) b
      written =
          Unchanged-Recorded s st req.iid (stored (prepared s a.id isrc req acc))
            (begun-Unchanged s st a) (record { same_id = refl; same_trim = refl; records = recs })
  prepare_put isrc a req acc false h w new beg fits same put valid recs = (
    none,
    b,
    rw put,
    Unchanged-IsValid s st a b kept (st.abort_valid h valid) w,
    PrepareOutcome.ignored (Ignores.not_stored h new beg fits (rw same put)) refl kept,
  )
    where
      b : Acceptor s
      b = record a { store = s.tx_abort h }

      kept : Unchanged s st a b
      kept = record {
        same_id = refl;
        same_trim = refl;
        same_records =
            λ k. st.abort_lem a.store h (prepared s a.id isrc req acc) k w.store_valid put;
      }

  prepare_new_lem :
      (isrc : ℤ) (a : Acceptor s) (req : Prepare) (acc : Accepted)
      → IsValid s st a
      → a.trim_iid < req.iid
      → (s.tx_begin a.store).0 ≡ true
      → ballot_in (record_at s st a req.iid) ≤ req.ballot
      → or_zeroed (record_at s st a req.iid) ≡ acc
      → Answers s st (PrepareOutcome isrc a req) (prepare_new s isrc (begun s st a) req acc)
  unfolding prepared
  prepare_new_lem isrc a req acc w new beg fits same =
      let (done, h, put, valid, recs) =
        st.put_total (begun s st a).store (prepared s a.id isrc req acc)
          (st.begin_valid a.store w.store_valid) (prepared-Whole a.id isrc req acc) in
      prepare_put isrc a req acc done h w new beg fits same put valid recs

  -- The record `r` of the instance has a larger ballot.
  prepare_kept :
      (isrc : ℤ) (a : Acceptor s) (req : Prepare) (r : Accepted)
      → IsValid s st a
      → a.trim_iid < req.iid
      → (s.tx_begin a.store).0 ≡ true
      → record_at s st a req.iid ≡ some r
      → leb (ballot_of r) req.ballot ≡ false
      → Answers s st (PrepareOutcome isrc a req) (prepare_old s (begun s st a) req r)
  unfolding prepare_old
  prepare_kept isrc a req r w new beg e gt =
      let (whole, at) = st.get_whole a.store req.iid r w.store_valid e in
      let own = w.own req.iid r e in
      let (vb, v, made, vb_is, same) = accepted_to_promise-whole r a.id whole own in
      let (out, a', run, valid, (kept, sent)) =
        promise_record_lem (begun s st a) r
          (promise (promise_for r.src r.iid (ballot_of r) vb a.id v)) (begun-IsValid s st a w)
          made in
      (
        out,
        a',
        rw (has_aid-own r a.id whole.some_aid own) run,
        valid,
        PrepareOutcome.keeps r vb v new beg e (ground arith) vb_is same
            (Unchanged-trans s st (begun-Unchanged s st a) kept)
            (subst
              (λ i.
                IfCommitted s st (s.tx_begin a.store).1
                  (some (promise (promise_for r.src i (ballot_of r) vb a.id v))) out)
              at sent),
      )

  larger_ballot :
      (isrc : ℤ) (a : Acceptor s) (req : Prepare) (r : Accepted) (b : ℕ)
      → first r.ballots ≡ some b
      → leb b req.ballot ≡ false
      → prepare_found s isrc a req (some r) ≡ prepare_old s a req r
  unfolding prepare_found
  larger_ballot isrc a req r b e gt = rw (e, gt)

  no_larger_ballot :
      (isrc : ℤ) (a : Acceptor s) (req : Prepare) (r : Accepted) (b : ℕ)
      → first r.ballots ≡ some b
      → leb b req.ballot ≡ true
      → prepare_found s isrc a req (some r) ≡ prepare_new s isrc a req r
  unfolding prepare_found
  no_larger_ballot isrc a req r b e le = rw (e, le)

  -- The record of the instance decides.
  prepare_found_lem :
      (isrc : ℤ) (a : Acceptor s) (req : Prepare) (found : Option Accepted)
      → IsValid s st a
      → a.trim_iid < req.iid
      → (s.tx_begin a.store).0 ≡ true
      → record_at s st a req.iid ≡ found
      → Answers s st (PrepareOutcome isrc a req) (prepare_found s isrc (begun s st a) req found)
  prepare_found_lem isrc a req none w new beg e =
      unfold prepare_found in
      prepare_new_lem isrc a req zeroed w new beg (rw e (omega arith)) (rw e refl)
  prepare_found_lem isrc a req (some r) w new beg e =
      elim (Bool-cases (leb (ballot_of r) req.ballot)) [
        | inl le ↦
            rw
              (no_larger_ballot isrc (begun s st a) req r (ballot_of r)
                (first-ballots r (st.get_whole a.store req.iid r w.store_valid e).0) le)
              (prepare_new_lem isrc a req r w new beg (rw e (leb→le (ballot_of r) req.ballot le))
                (rw e refl))
        | inr gt ↦
            rw
              (larger_ballot isrc (begun s st a) req r (ballot_of r)
                (first-ballots r (st.get_whole a.store req.iid r w.store_valid e).0) gt)
              (prepare_kept isrc a req r w new beg e gt)
      ]

  -- `acceptor_receive_prepare` never faults and keeps the acceptor valid. It ignores the request, and
  -- changes nothing, only if the instance is trimmed or the storage refuses to begin or to take the
  -- record. Else, if no larger ballot is recorded, it records the request's ballot, with no value, and
  -- promises just that; if there is one, it promises the ballot and the value of the record, which
  -- stays. The promise is sent exactly if the commit succeeds. It touches no other instance.
  pub receive_prepare_lem :
      (isrc : ℤ) (a : Acceptor s) (req : Prepare)
      → IsValid s st a
      → Answers s st (PrepareOutcome isrc a req) (receive_prepare s isrc a req)
  unfolding receive_prepare
  receive_prepare_lem isrc a req w = elim (Bool-cases (leb req.iid a.trim_iid)) [
    | inl old ↦ rw old (
      none,
      a,
      refl,
      w,
      PrepareOutcome.ignored (Ignores.trimmed (leb→le req.iid a.trim_iid old)) refl
          (Unchanged-refl s st a),
    )
    | inr new ↦ elim (Bool-cases (s.tx_begin a.store).0) [
      | inl yes_begun ↦
          rw
            (
              new,
              yes_begun,
              st.get_lem (begun s st a).store req.iid (st.begin_valid a.store w.store_valid),
              st.begin_keeps a.store req.iid,
            )
            (prepare_found_lem isrc a req (record_at s st a req.iid) w (ground arith) yes_begun
              refl)
      | inr not_begun ↦
          rw (new, not_begun)
            (
              none,
              begun s st a,
              refl,
              begun-IsValid s st a w,
              PrepareOutcome.ignored (Ignores.not_begun (ground arith) not_begun) refl
                  (begun-Unchanged s st a),
            )
    ]
  ]
