-- ===== src/Acceptor/Trimming.antt =====
-- `acceptor_receive_trim` of paxos/acceptor.c over a working storage.
use sciascid_libpaxos_d255f.Base.{
  ℕ, ◌≤◌, ◌<◌, ◌≡◌, refl, sym, ap, ◌∙◌, inl, inr, Bool, true, none, some, leb, if◌then◌else◌,
  Bool-cases, if_some, arith,
}
use sciascid_libpaxos_d255f.Accepted.{first}
use sciascid_libpaxos_d255f.Storage.{StorageApi, IsStorage}
use sciascid_libpaxos_d255f.Acceptor.{Acceptor}
use sciascid_libpaxos_d255f.Acceptor.Service.{receive_trim}
use sciascid_libpaxos_d255f.Acceptor.Valid.{IsValid, record_at}

module _ (s : StorageApi) (st : IsStorage s) where
  -- What `acceptor_receive_trim` has done, `done` being its result.
  pub record Trimmed (a : Acceptor s) (iid : ℕ) (done : Bool) (a' : Acceptor s) : Type 0 where
    pub valid : IsValid s st a'
    pub same_id : a'.id ≡ a.id
    pub trim_eq : a'.trim_iid ≡ (if leb iid a.trim_iid then a.trim_iid else iid)
    pub later : (k : ℕ) → iid < k → record_at s st a' k ≡ record_at s st a k
    pub old : (k : ℕ) → iid ≤ a.trim_iid → record_at s st a' k ≡ record_at s st a k
    pub gone : (k : ℕ) → done ≡ true → k ≤ iid → record_at s st a' k ≡ none

  -- The storage after the transaction of `acceptor_receive_trim`.
  abbrev trimmed : Acceptor s → ℕ → Acceptor s
  trimmed a iid = record a {
    trim_iid = iid;
    store = (s.tx_commit (s.trim (s.tx_begin a.store).1 iid).1).1;
  }

  records-trimmed :
      (a : Acceptor s) (iid k : ℕ)
      → IsValid s st a
      → record_at s st (trimmed a iid) k ≡ (if leb k iid then none else record_at s st a k)
  records-trimmed a iid k w =
      st.commit_keeps (s.trim (s.tx_begin a.store).1 iid).1 k
      ∙ st.trim_lem (s.tx_begin a.store).1 iid k (st.begin_valid a.store w.store_valid)
      ∙ ap (λ o. if leb k iid then none else o) (st.begin_keeps a.store k)

  trimmed-IsValid : (a : Acceptor s) (iid : ℕ) → IsValid s st a → IsValid s st (trimmed a iid)
  trimmed-IsValid a iid w = record {
    store_valid =
        st.commit_valid (s.trim (s.tx_begin a.store).1 iid).1
          (st.trim_valid (s.tx_begin a.store).1 iid (st.begin_valid a.store w.store_valid));
    own = λ k r e.
        if_some (λ q. first q.aids ≡ some a.id) (leb k iid) none (record_at s st a k) r
          (sym (records-trimmed a iid k w) ∙ e) (λ _ n. absurd (cc)) (w.own k r);
  }

  pub receive_trim_lem :
      (a : Acceptor s) (iid : ℕ)
      → IsValid s st a
      → Trimmed a iid (receive_trim s a iid).0 (receive_trim s a iid).1
  unfolding receive_trim
  receive_trim_lem a iid w = elim (Bool-cases (leb iid a.trim_iid)) [
    | inl old ↦ rw old (record {
      valid = w;
      same_id = refl;
      trim_eq = rw old;
      later = λ k _. refl;
      old = λ k _. refl;
      gone = λ k n. absurd (cc);
    })
    | inr new ↦ elim (Bool-cases (s.tx_begin a.store).0) [
      | inl yes_begun ↦
          rw (new, yes_begun)
            (record {
              valid = trimmed-IsValid a iid w;
              same_id = refl;
              trim_eq = rw new;
              later = λ k h. records-trimmed a iid k w ∙ ground arith;
              old = λ k h. absurd (ground arith);
              gone = λ k _ h. records-trimmed a iid k w ∙ ground arith;
            })
      | inr not_begun ↦
          rw (new, not_begun)
            (record {
              valid = record {
                store_valid = st.begin_valid a.store w.store_valid;
                own = λ k r e. w.own k r (sym (st.begin_keeps a.store k) ∙ e);
              };
              same_id = refl;
              trim_eq = rw new;
              later = λ k _. st.begin_keeps a.store k;
              old = λ k h. absurd (ground arith);
              gone = λ k n. absurd (cc);
            })
    ]
  ]
