-- ===== src/Storage/Mem/Laws.antt =====
-- The in-memory storage is a storage as the acceptor wants it.
use sciascid_libpaxos_d255f.Base.{
  Option, ℕ, ◌≡◌, refl, sym, ap, ◌∙◌, subst, inl, inr, Bool, true, false, none, some, List, [], ◌∷◌,
  leb, ◌==◌, if◌then◌else◌, Bool-cases, Option-cases, if_some, some_inj, Member, arith,
}
use sciascid_libpaxos_d255f.Types.{Accepted}
use sciascid_libpaxos_d255f.Accepted.{IsWhole, stored}
use sciascid_libpaxos_d255f.KHash.{KHash, IsTable}
use sciascid_libpaxos_d255f.Storage.{IsStorage}
use sciascid_libpaxos_d255f.Storage.Mem.{
  MemStorage, new, get, put, trim_bucket, trim_from, trim, api,
}
use sciascid_libpaxos_d255f.Storage.Mem.Copy.{accepted_copy-stored, stored-IsWhole, stored-stored}

module _ (table : KHash Accepted) (ok : IsTable table) where
  -- Every record stands under its instance, owns its arrays, and has been stored.
  abbrev pub IsFiled : table.Table → Type 0
  IsFiled t =
      (k : ℕ) (a : Accepted) → table.get t k ≡ some a → (a.iid ≡ k) × IsWhole a × (stored a ≡ a)

  get_lem :
      (s : MemStorage table) (k : ℕ)
      → IsFiled s.records
      → get table s k ≡ some (table.get s.records k)
  unfolding get
  get_lem s k v = elim (Option-cases (table.get s.records k)) [
    | inl e ↦ rw (e, get)
    | inr (a, e) ↦
        let (_, w, st) = v k a e in
        rw (e, get) (rw (accepted_copy-stored a w) (ap (λ x. some (some x)) st))
  ]

  put-IsFiled :
      (t : table.Table) (a : Accepted)
      → IsFiled t
      → IsWhole a
      → IsFiled (table.put t a.iid (stored a))
  unfolding stored
  put-IsFiled t a v w k b e =
      if_some P (a.iid == k) (some (stored a)) (table.get t k) b
        (sym (ok.get-put t a.iid k (stored a)) ∙ e)
        (λ same eq. subst P (some_inj eq) (ground arith, stored-IsWhole a w, stored-stored a))
        (v k b)
    where
      P : Accepted → Type 0
      P c = (c.iid ≡ k) × IsWhole c × (stored c ≡ c)

  del-IsFiled : (t : table.Table) (j : ℕ) → IsFiled t → IsFiled (table.del t j)
  del-IsFiled t j v k b e =
      if_some (λ c. (c.iid ≡ k) × IsWhole c × (stored c ≡ c)) (j == k) none (table.get t k) b
        (sym (ok.get-del t j k) ∙ e) (λ same eq. absurd (cc)) (v k b)

  put_lem :
      (s : MemStorage table) (a : Accepted)
      → IsFiled s.records
      → IsWhole a
      → (done : Bool) × (s' : MemStorage table) × (put table s a ≡ some (done, s'))
        × IsFiled s'.records
        × ((k : ℕ)
            → table.get s'.records k ≡ (
                if done
                then (if a.iid == k then some (stored a) else table.get s.records k)
                else table.get s.records k))
  unfolding put
  put_lem s a v w = elim (Bool-cases (table.no_memory s.records a.iid)) [
    | inl e ↦ (false, s, rw (accepted_copy-stored a w, e), v, λ k. refl)
    | inr e ↦ (
      true,
      record s { records = table.put s.records a.iid (stored a) },
      rw (accepted_copy-stored a w, e),
      put-IsFiled s.records a v w,
      λ k. ok.get-put s.records a.iid k (stored a),
    )
  ]

  put_fails :
      (s s' : MemStorage table) (a : Accepted) (k : ℕ)
      → IsFiled s.records
      → put table s a ≡ some (false, s')
      → table.get s'.records k ≡ table.get s.records k
  unfolding put
  put_fails s s' a k v e = ground arith

  record Trimmed (iid : ℕ) (t u : table.Table) : Type 0 where
    filed : IsFiled u
    keeps : (k : ℕ) → leb k iid ≡ false → table.get u k ≡ table.get t k
    none_back : (k : ℕ) → table.get t k ≡ none → table.get u k ≡ none

  trim_bucket-Trimmed :
      (iid : ℕ) (t : table.Table) (k : ℕ)
      → IsFiled t
      → Trimmed iid t (trim_bucket table iid t k)
        × (leb k iid ≡ true → table.get (trim_bucket table iid t k) k ≡ none)
  unfolding trim_bucket
  trim_bucket-Trimmed iid t k v = elim (Option-cases (table.get t k)) [
    | inl e ↦
        rw (e, trim_bucket)
          (record { filed = v; keeps = λ j _. refl; none_back = λ j p. p }, λ _. e)
    | inr (a, e) ↦ elim (Bool-cases (leb a.iid iid)) [
      | inl old ↦
          rw (e, trim_bucket, old)
            (
              record {
                filed = del-IsFiled t k v;
                keeps = λ j new. ok.get-del t k j ∙ ground (arith, v k a e);
                none_back = λ j p. ok.get-del t k j ∙ ground arith;
              },
              λ _. ok.get-del t k k ∙ ground arith,
            )
      | inr new ↦
          rw (e, trim_bucket, new)
            (
              record { filed = v; keeps = λ j _. refl; none_back = λ j p. p },
              λ old. ground (arith, v k a e),
            )
    ]
  ]

  trim_from-Trimmed :
      (iid : ℕ) (ks : List ℕ) (t : table.Table)
      → IsFiled t
      → Trimmed iid t (trim_from table iid ks t)
        × ((k : ℕ) → Member k ks → leb k iid ≡ true → table.get (trim_from table iid ks t) k ≡ none)
  unfolding trim_from
  trim_from-Trimmed iid [] t v =
      (record { filed = v; keeps = λ j _. refl; none_back = λ j p. p }, λ k m _. absurd m)
  trim_from-Trimmed iid (j ∷ ks) t v =
      let (one, gone) = trim_bucket-Trimmed iid t j v in
      let (rest, gone') = trim_from-Trimmed iid ks (trim_bucket table iid t j) one.filed in
      (
        record {
          filed = rest.filed;
          keeps = λ k new. rest.keeps k new ∙ one.keeps k new;
          none_back = λ k p. rest.none_back k (one.none_back k p);
        },
        λ k m old. elim m [
          | inl e ↦ rest.none_back k (
              subst (λ i. table.get (trim_bucket table iid t j) i ≡ none) (sym e)
                (gone (subst (λ i. leb i iid ≡ true) e old)))
          | inr m' ↦ gone' k m' old
        ],
      )

  get-trim :
      (s : MemStorage table) (iid k : ℕ)
      → IsFiled s.records
      → table.get (trim table s iid).1.records k
        ≡ (if leb k iid then none else table.get s.records k)
  unfolding trim
  get-trim s iid k v =
      let (all, gone) = trim_from-Trimmed iid (table.keys s.records) s.records v in
      elim (Bool-cases (leb k iid)) [
        | inr new ↦ rw new (all.keeps k new)
        | inl old ↦ elim (Option-cases (table.get s.records k)) [
          | inl e ↦ rw old (all.none_back k e)
          | inr (a, e) ↦ rw old (gone k ((ok.Member-keys s.records k).1 (λ n. cc)) old)
        ]
      ]

  trim-IsFiled :
      (s : MemStorage table) (iid : ℕ) → IsFiled s.records → IsFiled (trim table s iid).1.records
  unfolding trim
  trim-IsFiled s iid v = (trim_from-Trimmed iid (table.keys s.records) s.records v).0.filed

  -- `mem_storage_put` of a whole record over valid contents never faults and leaves valid contents.
  -- If it succeeds, `mem_storage_get` gives the stored form of the record for its instance and what
  -- it gave before for every other; if it fails, it gives what it gave before.
  pub get-put :
      (s : MemStorage table) (a : Accepted)
      → IsFiled s.records
      → IsWhole a
      → (done : Bool) × (s' : MemStorage table) × (put table s a ≡ some (done, s'))
        × IsFiled s'.records
        × ((k : ℕ) (r : Option Accepted)
            → get table s k ≡ some r
            → get table s' k
              ≡ some (if done then (if a.iid == k then some (stored a) else r) else r))
  get-put s a v w =
      let (done, s', run, v', there) = put_lem s a v w in
      (
        done,
        s',
        run,
        v',
        λ k r e.
            get_lem s' k v'
            ∙ ap some (there k)
            ∙ ap (λ x. some (if done then (if a.iid == k then some (stored a) else x) else x))
                (some_inj (sym (get_lem s k v) ∙ e)),
      )

  -- `mem_storage_trim` over valid contents leaves valid contents, in which `mem_storage_get` finds
  -- no instance up to the one that is trimmed, and finds every later one as before.
  pub get-trim_from :
      (s : MemStorage table) (iid k : ℕ) (r : Option Accepted)
      → IsFiled s.records
      → get table s k ≡ some r
      → IsFiled (trim table s iid).1.records
        × (get table (trim table s iid).1 k ≡ some (if leb k iid then none else r))
  get-trim_from s iid k r v e = (
    trim-IsFiled s iid v,
    get_lem (trim table s iid).1 k (trim-IsFiled s iid v)
        ∙ ap some (get-trim s iid k v)
        ∙ ap (λ x. some (if leb k iid then none else x)) (some_inj (sym (get_lem s k v) ∙ e)),
  )

  -- The in-memory storage does what the acceptor relies on: a record that is put is found until its
  -- instance is trimmed or it is put again, a put that fails changes nothing, a trim removes
  -- the instances up to its own and no other, and no call on valid contents faults.
  pub mem-IsStorage : IsStorage (api table)
  mem-IsStorage = record {
    IsValid = λ s. IsFiled s.records;
    records = λ s k. table.get s.records k;
    begin_valid = λ h v. v;
    begin_keeps = λ h k. refl;
    commit_valid = λ h v. v;
    commit_keeps = λ h k. refl;
    get_lem = get_lem;
    get_whole = λ h k a v e. ((v k a e).1, (v k a e).0);
    put_total = put_lem;
    abort_lem = put_fails;
    abort_valid = λ h v. v;
    trim_valid = trim-IsFiled;
    trim_lem = get-trim;
  }

  -- A new in-memory storage is valid and holds no record.
  pub new-IsFiled : IsFiled (new table).records × ((k : ℕ) → table.get (new table).records k ≡ none)
  unfolding new
  new-IsFiled = (λ k a e. absurd (cc (ok.get-init k)), ok.get-init)

  pub filed-IsValid : (s : MemStorage table) → IsFiled s.records → mem-IsStorage.IsValid s
  unfolding mem-IsStorage
  filed-IsValid s v = v

  pub records_lem :
      (s : MemStorage table) (k : ℕ) → mem-IsStorage.records s k ≡ table.get s.records k
  unfolding mem-IsStorage
  records_lem s k = refl
