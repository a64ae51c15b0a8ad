-- ===== src/Proposer/Trimming.antt =====
-- `proposer_set_instance_id` of paxos/proposer.c: trimming loses no value of a client.
use mathlib.Core.List.{append_assoc, append-nil}
use sciascid_libpaxos_d255f.Base.{
  ℕ, ◌≤◌, ◌<◌, ◌≡◌, ◌≢◌, refl, sym, ap, ◌∙◌, ◌⊎◌, inl, inr, true, false, leb, ltb, ◌==◌,
  if◌then◌else◌, Option, none, some, List, [], ◌∷◌, ◌++◌, Member, Bool-cases, Option-cases, ==_iff,
  subst, ◌>>=◌, arith,
}
use sciascid_libpaxos_d255f.Types.{Value}
use sciascid_libpaxos_d255f.Carray.{Carray, push_back}
use sciascid_libpaxos_d255f.Carray.Window
use sciascid_libpaxos_d255f.Carray.Window.{contents}
use sciascid_libpaxos_d255f.Carray.Refine.{push_back_refines}
use sciascid_libpaxos_d255f.KHash.{KHash, IsTable}
use sciascid_libpaxos_d255f.KHash.Changes.{del_self, del-other}
use sciascid_libpaxos_d255f.Proposer.{Instance, Proposer}
use sciascid_libpaxos_d255f.Proposer.Accepts.{trim_instance, trim_instances, set_next_iid}

-- What is left of an instance in a table that is trimmed up to `iid`.
abbrev pub kept : ℕ → Option Instance → Option Instance
kept iid none = none
kept iid (some inst) = if leb inst.iid iid then none else some inst

-- The client's value that goes back to the queue with it.
abbrev pub released_by : ℕ → Option Instance → List Value
released_by iid none = []
released_by iid (some inst) =
    if leb inst.iid iid then elim inst.value [ none ↦ [] | some v ↦ v ∷ [] ] else []

kept_twice : (iid : ℕ) (o : Option Instance) → kept iid (kept iid o) ≡ kept iid o
kept_twice iid none = refl
kept_twice iid (some inst) = elim (Bool-cases (leb inst.iid iid)) [
  | inl old ↦ rw old refl
  | inr new ↦ rw (new, new) refl
]

module _ (table : KHash Instance) (ok : IsTable table) (junk : Value) where
  -- The table without the instance at `k`, if that is trimmed.
  abbrev pub swept : ℕ → ℕ → table.Table → table.Table
  swept iid k t = elim (table.get t k) [
    | none ↦ t
    | some inst ↦ if leb inst.iid iid then table.del t k else t
  ]

  -- The values that go back to the queue, in the order of the keys.
  abbrev pub released : ℕ → List ℕ → table.Table → List Value
  released iid [] t = []
  released iid (k ∷ ks) t = released_by iid (table.get t k) ++ released iid ks (swept iid k t)

  -- One round of the loop.
  record Round (iid k : ℕ) (values : Carray Value) (t : table.Table) : Type 0 where
    pub values' : Carray Value
    pub run : trim_instance table junk iid k (values, t) ≡ some (values', swept iid k t)
    pub valid : Window.IsValid values'
    pub queued : contents junk values' ≡ contents junk values ++ released_by iid (table.get t k)
    pub left :
        (x : ℕ)
        → (table.get (swept iid k t) x ≡ kept iid (table.get t x))
          ⊎ ((table.get (swept iid k t) x ≡ table.get t x) × (x ≢ k))

  stays :
      (iid k : ℕ) (t : table.Table)
      → table.get t k ≡ kept iid (table.get t k)
      → (x : ℕ)
      → (table.get t x ≡ kept iid (table.get t x)) ⊎ ((table.get t x ≡ table.get t x) × (x ≢ k))
  stays iid k t e x = elim (Bool-cases (x == k)) [
    | inl same ↦
        inl (subst (λ y. table.get t y ≡ kept iid (table.get t y)) (sym ((==_iff x k).0 same)) e)
    | inr other ↦ inr (refl, differ other)
  ]
    where
      differ : {x k : ℕ} → (x == k) ≡ false → x ≢ k
      differ ne h = ground arith

  goes :
      (iid k : ℕ) (t : table.Table)
      → kept iid (table.get t k) ≡ none
      → (x : ℕ)
      → (table.get (table.del t k) x ≡ kept iid (table.get t x))
        ⊎ ((table.get (table.del t k) x ≡ table.get t x) × (x ≢ k))
  goes iid k t e x = elim (Bool-cases (x == k)) [
    | inl same ↦ inl (
        subst (λ y. table.get (table.del t k) y ≡ kept iid (table.get t y))
          (sym ((==_iff x k).0 same)) (del_self table ok t k ∙ sym e))
    | inr other ↦ inr (del-other table ok t k x (differ other), differ other)
  ]
    where
      differ : {x k : ℕ} → (x == k) ≡ false → x ≢ k
      differ ne h = ground arith

  swept-some :
      (iid k : ℕ) (t : table.Table) (o : Option Instance)
      → table.get t k ≡ o
      → swept iid k t
        ≡ elim o [ none ↦ t | some inst ↦ if leb inst.iid iid then table.del t k else t ]
  swept-some iid k t o e =
      ap
        (λ (o : Option Instance). elim o [
          | none ↦ t
          | some inst ↦ if leb inst.iid iid then table.del t k else t
        ])
        e

  trim_instance-some :
      (iid k : ℕ) (values : Carray Value) (t : table.Table) (o : Option Instance)
      → table.get t k ≡ o
      → trim_instance table junk iid k (values, t) ≡ elim o [
        | none ↦ some (values, t)
        | some inst ↦
            if leb inst.iid iid
            then elim inst.value [
              | none ↦ some (values, table.del t k)
              | some v ↦ (do values' ← push_back junk values v; some (values', table.del t k))
            ]
            else some (values, t)
      ]
  unfolding trim_instance
  trim_instance-some iid k values t o e =
      ap
        (λ (o : Option Instance). elim o [
          | none ↦ some (values, t)
          | some inst ↦
              if leb inst.iid iid
              then elim inst.value [
                | none ↦ some (values, table.del t k)
                | some v ↦ (do values' ← push_back junk values v; some (values', table.del t k))
              ]
              else some (values, t)
        ])
        e

  Round-of :
      (iid k : ℕ) (values values' : Carray Value) (t t' : table.Table) (vs : List Value)
      → swept iid k t ≡ t'
      → trim_instance table junk iid k (values, t) ≡ some (values', t')
      → Window.IsValid values'
      → contents junk values' ≡ contents junk values ++ vs
      → released_by iid (table.get t k) ≡ vs
      → ((x : ℕ)
          → (table.get t' x ≡ kept iid (table.get t x))
            ⊎ ((table.get t' x ≡ table.get t x) × (x ≢ k)))
      → Round iid k values t
  Round-of iid k values values' t t' vs same run w queued is left = record {
    values' = values';
    run = run ∙ ap (λ x. some (values', x)) (sym same);
    valid = w;
    queued = queued ∙ ap (λ ys. contents junk values ++ ys) (sym is);
    left =
        subst
          (λ u.
            (x : ℕ)
            → (table.get u x ≡ kept iid (table.get t x))
              ⊎ ((table.get u x ≡ table.get t x) × (x ≢ k)))
          (sym same) left;
  }

  -- An instance that is trimmed.
  Round-old :
      (iid k : ℕ) (values : Carray Value) (t : table.Table) (inst : Instance)
      → Window.IsValid values
      → table.get t k ≡ some inst
      → leb inst.iid iid ≡ true
      → Round iid k values t
  Round-old iid k values t inst w e old = elim (Option-cases inst.value) [
    | inl n ↦
        Round-of iid k values values t (table.del t k) [] sweeps
          (trim_instance-some iid k values t (some inst) e ∙ rw (old, n) refl) w
          (sym (append-nil (contents junk values))) (ap (released_by iid) e ∙ rw (old, n) refl) gone
    | inr (v, n) ↦
        let (values', put, pushed) = push_back_refines junk values v w in
        Round-of iid k values values' t (table.del t k) (v ∷ []) sweeps
          (trim_instance-some iid k values t (some inst) e ∙ rw (old, n, put) refl) pushed.valid
          pushed.holds (ap (released_by iid) e ∙ rw (old, n) refl) gone
  ]
    where
      sweeps : swept iid k t ≡ table.del t k
      sweeps = swept-some iid k t (some inst) e ∙ rw old refl

      gone :
          (x : ℕ)
          → (table.get (table.del t k) x ≡ kept iid (table.get t x))
            ⊎ ((table.get (table.del t k) x ≡ table.get t x) × (x ≢ k))
      gone = goes iid k t (ap (kept iid) e ∙ rw old refl)

  Round-by :
      (iid k : ℕ) (values : Carray Value) (t : table.Table)
      → Window.IsValid values
      → Round iid k values t
  Round-by iid k values t w = elim (Option-cases (table.get t k)) [
    | inl e ↦
        Round-of iid k values values t t [] (swept-some iid k t none e)
          (trim_instance-some iid k values t none e) w (sym (append-nil (contents junk values)))
          (ap (released_by iid) e) (stays iid k t (e ∙ ap (kept iid) (sym e)))
    | inr (inst, e) ↦ elim (Bool-cases (leb inst.iid iid)) [
      | inl old ↦ Round-old iid k values t inst w e old
      | inr new ↦
          Round-of iid k values values t t [] (swept-some iid k t (some inst) e ∙ rw new refl)
            (trim_instance-some iid k values t (some inst) e ∙ rw new refl) w
            (sym (append-nil (contents junk values))) (ap (released_by iid) e ∙ rw new refl)
            (stays iid k t (e ∙ sym (ap (kept iid) e ∙ rw new refl)))
    ]
  ]

  -- What the loop leaves.
  record Trimmed (iid : ℕ) (ks : List ℕ) (values : Carray Value) (t : table.Table)
      (values' : Carray Value) (t' : table.Table) : Type 0 where
    pub valid : Window.IsValid values'
    pub queued : contents junk values' ≡ contents junk values ++ released iid ks t
    pub left :
        (x : ℕ)
        → (table.get t' x ≡ kept iid (table.get t x))
          ⊎ ((table.get t' x ≡ table.get t x) × (Member x ks → ⊥))

  trim_instances_lem :
      (iid : ℕ) (ks : List ℕ) (values : Carray Value) (t : table.Table)
      → Window.IsValid values
      → (values' : Carray Value) × (t' : table.Table) × (trim_instances table junk iid ks
            (values, t)
          ≡ some (values', t'))
        × Trimmed iid ks values t values' t'
  unfolding trim_instances
  trim_instances_lem iid [] values t w = (
    values,
    t,
    refl,
    record {
      valid = w;
      queued = sym (append-nil (contents junk values));
      left = λ x. inr (refl, λ m. m);
    },
  )
  trim_instances_lem iid (k ∷ ks) values t w =
      let r = Round-by iid k values t w in
      let (values'', t'', run, d) = trim_instances_lem iid ks r.values' (swept iid k t) r.valid in
      (
        values'',
        t'',
        rw (r.run, run) refl,
        record {
          valid = d.valid;
          queued =
              d.queued
              ∙ ap (λ ys. ys ++ released iid ks (swept iid k t)) r.queued
              ∙ append_assoc (contents junk values) (released_by iid (table.get t k))
                  (released iid ks (swept iid k t));
          left = λ x. both x (r.left x) (d.left x);
        },
      )
    where
      both :
          {u : table.Table} (x : ℕ)
          → (table.get (swept iid k t) x ≡ kept iid (table.get t x))
            ⊎ ((table.get (swept iid k t) x ≡ table.get t x) × (x ≢ k))
          → (table.get u x ≡ kept iid (table.get (swept iid k t) x))
            ⊎ ((table.get u x ≡ table.get (swept iid k t) x) × (Member x ks → ⊥))
          → (table.get u x ≡ kept iid (table.get t x))
            ⊎ ((table.get u x ≡ table.get t x) × (Member x (k ∷ ks) → ⊥))
      both x (inl a) (inl b) = inl (b ∙ ap (kept iid) a ∙ kept_twice iid (table.get t x))
      both x (inl a) (inr (b, _)) = inl (b ∙ a)
      both x (inr (a, _)) (inl b) = inl (b ∙ ap (kept iid) a)
      both x (inr (a, ne)) (inr (b, out)) =
          inr (b ∙ a, λ m. elim m [ inl same ↦ ne same | inr rest ↦ out rest ])

  -- Over all the keys of the table.
  trim_all :
      (iid : ℕ) (values values' : Carray Value) (t t' : table.Table)
      → Trimmed iid (table.keys t) values t values' t'
      → (x : ℕ) → table.get t' x ≡ kept iid (table.get t x)
  trim_all iid values values' t t' d x = elim (d.left x) [
    | inl e ↦ e
    | inr (e, out) ↦ elim (Option-cases (table.get t x)) [
      | inl n ↦ e ∙ n ∙ ap (kept iid) (sym n)
      | inr (inst, n) ↦ absurd (out ((ok.Member-keys t x).1 (λ h. clash (sym n ∙ h))))
    ]
  ]
    where
      clash : {inst : Instance} → some inst ≡ none → ⊥
      clash h = cc

  -- A proposer that has moved on to the instance `iid`.
  pub record Moved (p : Proposer table junk) (iid : ℕ) (p' : Proposer table junk) : Type 0 where
    pub next : p'.next_prepare_iid ≡ iid
    pub prepares :
        (k : ℕ) → table.get p'.prepare_instances k ≡ kept iid (table.get p.prepare_instances k)
    pub accepts :
        (k : ℕ) → table.get p'.accept_instances k ≡ kept iid (table.get p.accept_instances k)
    pub queue : Window.IsValid p'.values
    pub queued :
        contents junk p'.values
        ≡ contents junk p.values
          ++ (released iid (table.keys p.prepare_instances) p.prepare_instances
              ++ released iid (table.keys p.accept_instances) p.accept_instances)

  -- `proposer_set_instance_id` never faults where the queue of values is valid. For an instance that
  -- is not larger than the last one prepared it does nothing. Else it goes on behind that instance:
  -- it removes every instance up to it from both tables and no other, and puts each value of a client
  -- that these instances had back into the queue, behind those that wait there: none is lost.
  pub set_next_iid_lem :
      (p : Proposer table junk) (iid : ℕ)
      → Window.IsValid p.values
      → (p' : Proposer table junk) × (set_next_iid table junk p iid ≡ some p')
        × (((iid ≤ p.next_prepare_iid) × (p' ≡ p)) ⊎ ((p.next_prepare_iid < iid) × Moved p iid p'))
  unfolding set_next_iid
  set_next_iid_lem p iid w = elim (Bool-cases (ltb p.next_prepare_iid iid)) [
    | inr old ↦ (p, rw old refl, inl (ground arith, refl))
    | inl new ↦
        let (vs₁, t₁, run₁, d₁) =
          trim_instances_lem iid (table.keys p.prepare_instances) p.values p.prepare_instances w in
        let (vs₂, t₂, run₂, d₂) =
          trim_instances_lem iid (table.keys p.accept_instances) vs₁ p.accept_instances d₁.valid in
        (
          record p {
            next_prepare_iid = iid;
            values = vs₂;
            prepare_instances = t₁;
            accept_instances = t₂;
          },
          rw (new, run₁, run₂) refl,
          inr (
            ground arith,
            record {
              next = refl;
              prepares = trim_all iid p.values vs₁ p.prepare_instances t₁ d₁;
              accepts = trim_all iid vs₁ vs₂ p.accept_instances t₂ d₂;
              queue = d₂.valid;
              queued =
                  d₂.queued
                  ∙ ap (λ ys. ys ++ released iid (table.keys p.accept_instances) p.accept_instances)
                      d₁.queued
                  ∙ append_assoc (contents junk p.values)
                      (released iid (table.keys p.prepare_instances) p.prepare_instances)
                      (released iid (table.keys p.accept_instances) p.accept_instances);
            },
          ),
        )
  ]
