-- ===== src/Acceptor/Faults.antt =====
-- Where paxos/acceptor.c loses an accepted value, and where it reads outside an array.
use sciascid_libpaxos_d255f.Base.{
  ℕ, suc, ◌+◌, ◌≤◌, ◌≡◌, refl, ap, ◌∙◌, inl, inr, ℤ, u32_of_int, false, Option, none, some, List,
  length, ==_refl, Option-cases, ◌>>=◌, subst, arith,
}
use sciascid_libpaxos_d255f.Types.{Value, Accepted, Prepare, Message, promise}
use sciascid_libpaxos_d255f.Accepted.{null_value, IsWhole, WholeValues, stored, stored_values}
use sciascid_libpaxos_d255f.KHash.{KHash, IsTable}
use sciascid_libpaxos_d255f.Storage.{StorageApi, IsStorage}
use sciascid_libpaxos_d255f.Storage.Mem.{put, api}
use sciascid_libpaxos_d255f.Storage.Mem.Copy.{accepted_copy-short}
use sciascid_libpaxos_d255f.Storage.Mem.Laws.{mem-IsStorage}
use sciascid_libpaxos_d255f.Acceptor.{Acceptor, prepared, receive_prepare}
use sciascid_libpaxos_d255f.Acceptor.Convert.{has_aid, append_aid}
use sciascid_libpaxos_d255f.Acceptor.Forward.{
  get_srcid, merge_found, merge_from, merge_one, index, Merge,
}
use sciascid_libpaxos_d255f.Acceptor.Promises.{promise_for}
use sciascid_libpaxos_d255f.Acceptor.Preparing.{PrepareOutcome, receive_prepare_lem}
use sciascid_libpaxos_d255f.Acceptor.Steps.{sent_or_not}
use sciascid_libpaxos_d255f.Acceptor.Safety.{answer_of}
use sciascid_libpaxos_d255f.Acceptor.Valid.{ballot_of, ballot_in, IsValid, record_at}

-- The instance has a record without values.
abbrev pub HasNoValue : Option Accepted → Type 0
HasNoValue none = ⊥
HasNoValue (some r) = r.values ≡ none

module _ (s : StorageApi) (st : IsStorage s) where
  -- Whatever value the acceptor has accepted for an instance, a prepare request whose ballot is not
  -- smaller makes it promise that it has accepted none, and wipes the value from its storage.
  pub prepare_forgets :
      (isrc : ℤ) (a a' : Acceptor s) (req : Prepare) (r : Accepted) (m : Message)
      → IsValid s st a
      → record_at s st a req.iid ≡ some r
      → ballot_of r ≤ req.ballot
      → receive_prepare s isrc a req ≡ some (some m, a')
      → (m ≡ promise (promise_for (u32_of_int isrc) req.iid req.ballot req.ballot a.id null_value))
        × HasNoValue (record_at s st a' req.iid)
  unfolding stored prepared stored_values
  prepare_forgets isrc a a' req r m w e le run =
      wiped
        (answer_of s st (PrepareOutcome s st isrc a req) (receive_prepare s isrc a req) (some m) a'
          (receive_prepare_lem s st isrc a req w) run).1
    where
      wiped :
          PrepareOutcome s st isrc a req (some m) a'
          → (m
              ≡ promise
                  (promise_for (u32_of_int isrc) req.iid req.ballot req.ballot a.id null_value))
            × HasNoValue (record_at s st a' req.iid)
      wiped (PrepareOutcome.ignored _ n _) = absurd (cc)
      wiped (PrepareOutcome.prepares h new _ fits _ u sent) =
          elim (sent_or_not s st h _ (some m) sent) [
            | inl is ↦ (cc, rw (u.records req.iid, ==_refl req.iid) refl)
            | inr n ↦ absurd (cc)
          ]
      wiped (PrepareOutcome.keeps q vb v new _ at gt _ _ u sent) =
          absurd (omega (arith, le, gt, ap ballot_in at, ap ballot_in e))

-- Adding an acceptor to a record leaves its values as they are.
append_aid-values :
    (r r' : Accepted) (id b vb : ℕ)
    → append_aid r id b vb ≡ some r'
    → (r'.values ≡ r.values) × (r'.n_aids ≡ r.n_aids + 1)
unfolding append_aid
append_aid-values r r' id b vb e = ground arith

values_length :
    (r : Accepted) (vs : List Value) → IsWhole r → r.values ≡ some vs → length vs ≡ r.n_aids
values_length r vs w e = (subst (WholeValues r.n_aids) e w.whole_values).0

module _ (table : KHash Accepted) (ok : IsTable table) where
  put_appended :
      (t : (api table).Handle) (r : Accepted) (vs : List Value) (id b vb : ℕ)
      → r.values ≡ some vs
      → length vs ≡ r.n_aids
      → (r' : Accepted) → append_aid r id b vb ≡ some r'
      → put table t r' ≡ none
  unfolding put
  put_appended t r vs id b vb e l r' made =
      let (same, more) = append_aid-values r r' id b vb made in
      rw (accepted_copy-short r' vs (same ∙ e) (omega arith))

  append_faults :
      (t : (api table).Handle) (r : Accepted) (vs : List Value) (id b vb : ℕ)
      → r.values ≡ some vs
      → length vs ≡ r.n_aids
      → ◌≡◌ {A = Option (Merge (api table))}
          (do
            r' ← append_aid r id b vb
            (_, h) ← put table t r'
            some (record { acc = r'; added = r'.n_aids; store = h }))
          none
  append_faults t r vs id b vb e l = elim (Option-cases (append_aid r id b vb)) [
    | inl n ↦ rw n
    | inr (r', made) ↦ rw (made, put_appended t r vs id b vb e l r' made)
  ]

  merge_one_faults :
      (reply : Accepted) (m : Merge (api table)) (vs : List Value) (x : ℕ)
      → index reply.aids 0 ≡ some x
      → has_aid x m.acc ≡ some false
      → m.acc.values ≡ some vs
      → length vs ≡ m.acc.n_aids
      → merge_one (api table) reply 0 m ≡ none
  unfolding merge_one
  merge_one_faults reply m vs x ex new e l = elim (Option-cases (index reply.ballots 0)) [
    | inl n ↦ rw (ex, new, n)
    | inr (b, eb) ↦ elim (Option-cases (index reply.value_ballots 0)) [
      | inl n ↦ rw (ex, new, eb, n)
      | inr (vb, evb) ↦ rw (ex, new, eb, evb) (append_faults m.store m.acc vs x b vb e l)
    ]
  ]

  -- With the in-memory storage, passing back a reply that names an acceptor which the record of a
  -- value that has been accepted does not name reads outside the record's array of values.
  pub get_srcid_overread :
      (a : Acceptor (api table)) (reply r : Accepted) (vs : List Value) (x n : ℕ)
      → IsValid (api table) (mem-IsStorage table ok) a
      → record_at (api table) (mem-IsStorage table ok) a reply.iid ≡ some r
      → r.values ≡ some vs
      → index reply.aids 0 ≡ some x
      → reply.n_aids ≡ suc n
      → has_aid x r ≡ some false
      → get_srcid (api table) reply a ≡ none
  unfolding get_srcid merge_found merge_from
  get_srcid_overread a reply r vs x n w e ev ex en new = rw (
    (mem-IsStorage table ok).get_lem a.store reply.iid w.store_valid,
    e,
    en,
    merge_one_faults reply (record { acc = r; added = 0; store = a.store }) vs x ex new ev
        (values_length r vs
          ((mem-IsStorage table ok).get_whole a.store reply.iid r w.store_valid e).0 ev),
  )
