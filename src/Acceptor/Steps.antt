-- ===== src/Acceptor/Steps.antt =====
-- What the handlers of an acceptor do to its records, over a working storage.
use sciascid_libpaxos_d255f.Base.{
  ℕ, ◌≤◌, ◌<◌, ◌≡◌, refl, sym, ap, ◌∙◌, ◌⊎◌, inl, inr, true, false, Bool-cases, Option, none, some,
  ◌==◌, if◌then◌else◌, subst, if_some, some_inj,
}
use sciascid_libpaxos_d255f.Types.{Accepted, Message}
use sciascid_libpaxos_d255f.Accepted.{first}
use sciascid_libpaxos_d255f.Storage.{StorageApi, IsStorage}
use sciascid_libpaxos_d255f.Acceptor.{Acceptor, Reply, commit}
use sciascid_libpaxos_d255f.Acceptor.Valid.{ballot_in, IsValid, record_at}

module _ (s : StorageApi) (st : IsStorage s) where
  -- The acceptors differ in their storage at most, and that holds the same records.
  pub record Unchanged (a a' : Acceptor s) : Type 0 where
    pub same_id : a'.id ≡ a.id
    pub same_trim : a'.trim_iid ≡ a.trim_iid
    pub same_records : (k : ℕ) → record_at s st a' k ≡ record_at s st a k

  -- `a'` is `a` with the record `r` of the instance `iid`.
  pub record Recorded (a : Acceptor s) (iid : ℕ) (r : Accepted) (a' : Acceptor s) : Type 0 where
    pub same_id : a'.id ≡ a.id
    pub same_trim : a'.trim_iid ≡ a.trim_iid
    pub records : (k : ℕ) → record_at s st a' k ≡ (if iid == k then some r else record_at s st a k)

  -- A handler that did not fault, with an outcome.
  abbrev pub Answers : (Option Message → Acceptor s → Type 0) → Reply s → Type 0
  Answers P r =
      (out : Option Message) × (a' : Acceptor s) × (r ≡ some (out, a')) × IsValid s st a' × P out a'

  pub commit-Unchanged : (a : Acceptor s) (m : Option Message) → Unchanged a (commit s a m).1
  unfolding commit
  commit-Unchanged a m = record {
    same_id = refl;
    same_trim = refl;
    same_records = st.commit_keeps a.store;
  }

  -- The answer is `m` if the commit of `h` succeeds, and there is none if it fails.
  abbrev pub IfCommitted : s.Handle → Option Message → Option Message → Type 0
  IfCommitted h m out = out ≡ (if (s.tx_commit h).0 then m else none)

  pub commit-IfCommitted :
      (a : Acceptor s) (m : Option Message) → IfCommitted a.store m (commit s a m).0
  unfolding commit
  commit-IfCommitted a m = refl

  pub sent_or_not :
      (h : s.Handle) (m out : Option Message) → IfCommitted h m out → (out ≡ m) ⊎ (out ≡ none)
  sent_or_not h m out e = elim (Bool-cases (s.tx_commit h).0) [
    | inl done ↦ inl (e ∙ rw done refl)
    | inr failed ↦ inr (e ∙ rw failed refl)
  ]

  -- Why a request for the instance `iid` with the ballot `ballot` is ignored whose record is `r`: the
  -- instance is trimmed, or the storage refuses to begin, or to take the record.
  pub data Ignores (a : Acceptor s) (iid ballot : ℕ) (r : Accepted) : Type 0 where
    trimmed : iid ≤ a.trim_iid → Ignores a iid ballot r
    not_begun : a.trim_iid < iid → (s.tx_begin a.store).0 ≡ false → Ignores a iid ballot r
    not_stored :
        (h : s.Handle)
        → a.trim_iid < iid
        → (s.tx_begin a.store).0 ≡ true
        → ballot_in (record_at s st a iid) ≤ ballot
        → s.put (s.tx_begin a.store).1 r ≡ some (false, h)
        → Ignores a iid ballot r

  -- What is true of every record stays so where the records are the same.
  pub Unchanged-IsValid :
      (a a' : Acceptor s) → Unchanged a a' → st.IsValid a'.store → IsValid s st a → IsValid s st a'
  Unchanged-IsValid a a' u v w = record {
    store_valid = v;
    own = λ k r e. w.own k r (sym (u.same_records k) ∙ e) ∙ ap some (sym u.same_id);
  }

  -- A record that begins with the acceptor's id may be added.
  pub Recorded-IsValid :
      (a a' : Acceptor s) (iid : ℕ) (r : Accepted)
      → Recorded a iid r a'
      → st.IsValid a'.store
      → first r.aids ≡ some a.id
      → IsValid s st a
      → IsValid s st a'
  Recorded-IsValid a a' iid r u v mine w = record {
    store_valid = v;
    own = λ k q e.
        if_some (λ q. first q.aids ≡ some a'.id) (iid == k) (some r) (record_at s st a k) q
          (sym (u.records k) ∙ e)
          (λ _ same.
            subst (λ q. first q.aids ≡ some a'.id) (some_inj same) (mine ∙ ap some (sym u.same_id)))
          (λ old. w.own k q old ∙ ap some (sym u.same_id));
  }

  -- `storage_tx_begin`
  abbrev pub begun : Acceptor s → Acceptor s
  begun a = record a { store = (s.tx_begin a.store).1 }

  pub begun-Unchanged : (a : Acceptor s) → Unchanged a (begun a)
  begun-Unchanged a = record {
    same_id = refl;
    same_trim = refl;
    same_records = st.begin_keeps a.store;
  }

  pub begun-IsValid : (a : Acceptor s) → IsValid s st a → IsValid s st (begun a)
  begun-IsValid a v =
      Unchanged-IsValid a (begun a) (begun-Unchanged a) (st.begin_valid a.store v.store_valid) v

  pub Unchanged-trans : {a b c : Acceptor s} → Unchanged a b → Unchanged b c → Unchanged a c
  Unchanged-trans u v = record {
    same_id = v.same_id ∙ u.same_id;
    same_trim = v.same_trim ∙ u.same_trim;
    same_records = λ k. v.same_records k ∙ u.same_records k;
  }

  pub Recorded-Unchanged :
      {a b c : Acceptor s} {iid : ℕ} {r : Accepted}
      → Recorded a iid r b
      → Unchanged b c
      → Recorded a iid r c
  Recorded-Unchanged u v = record {
    same_id = v.same_id ∙ u.same_id;
    same_trim = v.same_trim ∙ u.same_trim;
    records = λ k. v.same_records k ∙ u.records k;
  }

  pub Unchanged-Recorded :
      {a b c : Acceptor s} (iid : ℕ) (r : Accepted)
      → Unchanged a b
      → Recorded b iid r c
      → Recorded a iid r c
  Unchanged-Recorded iid r u v = record {
    same_id = v.same_id ∙ u.same_id;
    same_trim = v.same_trim ∙ u.same_trim;
    records = λ k. v.records k ∙ ap (λ o. if iid == k then some r else o) (u.same_records k);
  }

  pub commit-IsValid :
      (a : Acceptor s) (m : Option Message) → IsValid s st a → IsValid s st (commit s a m).1
  unfolding commit
  commit-IsValid a m v =
      Unchanged-IsValid a (commit s a m).1 (commit-Unchanged a m)
        (st.commit_valid a.store v.store_valid) v

  pub Unchanged-refl : (a : Acceptor s) → Unchanged a a
  Unchanged-refl a = record { same_id = refl; same_trim = refl; same_records = λ k. refl }
