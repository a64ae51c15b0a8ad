-- ===== src/Acceptor/Repeating.antt =====
-- `acceptor_receive_repeat` of paxos/acceptor.c over a working storage.
use sciascid_libpaxos_d255f.Base.{
  ℕ, ◌<◌, ◌≡◌, refl, ap, ◌∙◌, inl, inr, Option, none, some, List, [], ◌∷◌, ltb, if◌then◌else◌,
  ◌>>=◌, ◌&&◌, Bool-cases, arith,
}
use sciascid_libpaxos_d255f.Types.{Value, Accepted}
use sciascid_libpaxos_d255f.Accepted.{first, IsWhole, WholeValues}
use sciascid_libpaxos_d255f.Storage.{StorageApi, IsStorage}
use sciascid_libpaxos_d255f.Acceptor.{Acceptor}
use sciascid_libpaxos_d255f.Acceptor.Service.{repeat_out, receive_repeat}
use sciascid_libpaxos_d255f.Acceptor.Promises.{value_of}
use sciascid_libpaxos_d255f.Acceptor.Steps.{
  Unchanged, Unchanged-IsValid, begun, begun-Unchanged, begun-IsValid,
}
use sciascid_libpaxos_d255f.Acceptor.Valid.{IsValid, record_at}

-- The record, if its first value is not empty.
abbrev pub repeatable : Option Accepted → Option Accepted
repeatable none = none
repeatable (some r) = if ltb 0 (value_of r.values).len then some r else none

repeat_values :
    {n : ℕ} (r : Accepted) (p : Option (List Value))
    → 0 < n
    → WholeValues n p
    → (elim p [
      | none ↦ some none
      | some vs ↦ (do v ← first (some vs); some (if ltb 0 v.len then some r else none))
    ])
      ≡ some (if ltb 0 (value_of p).len then some r else none)
unfolding first
repeat_values r none h w = refl
repeat_values r (some []) h w = absurd (omega arith)
repeat_values r (some (v ∷ vs)) h w = refl

repeat_out-repeatable :
    (found : Option Accepted)
    → ((r : Accepted) → found ≡ some r → IsWhole r)
    → repeat_out found ≡ some (repeatable found)
unfolding repeat_out
repeat_out-repeatable none w = refl
repeat_out-repeatable (some r) w =
    repeat_values r r.values (w r refl).some_aid (w r refl).whole_values

module _ (s : StorageApi) (st : IsStorage s) where
  -- What `acceptor_receive_repeat` returns and leaves.
  pub record Repeated (a : Acceptor s) (iid : ℕ) (out : Option Accepted) (a' : Acceptor s)
      : Type 0 where
    pub valid : IsValid s st a'
    pub kept : Unchanged s st a a'
    pub answer : out ≡ (
        if (s.tx_begin a.store).0 && (s.tx_commit (s.tx_begin a.store).1).0
        then repeatable (record_at s st a iid)
        else none)

  -- `acceptor_receive_repeat` never faults, keeps the acceptor valid and changes no record. Where the
  -- storage begins and commits, it returns the record of the instance if the first value of that is
  -- not empty, and no record else; where the storage fails to begin or to commit, it returns none.
  pub receive_repeat_lem :
      (a : Acceptor s) (iid : ℕ)
      → IsValid s st a
      → (out : Option Accepted) × (a' : Acceptor s) × (receive_repeat s a iid ≡ some (out, a'))
        × Repeated a iid out a'
  unfolding receive_repeat
  receive_repeat_lem a iid w = elim (Bool-cases (s.tx_begin a.store).0) [
    | inr not_begun ↦ (
      none,
      begun s st a,
      rw not_begun,
      record {
        valid = begun-IsValid s st a w;
        kept = begun-Unchanged s st a;
        answer = rw not_begun refl;
      },
    )
    | inl yes_begun ↦ elim (Bool-cases (s.tx_commit (s.tx_begin a.store).1).0) [
      | inr not_committed ↦ (
        none,
        b,
        rw (yes_begun, got, not_committed),
        record { valid = valid; kept = kept; answer = rw (yes_begun, not_committed) refl },
      )
      | inl committed ↦ (
        repeatable (record_at s st a iid),
        b,
        rw (
          yes_begun,
          got,
          committed,
          repeat_out-repeatable (record_at s st a iid)
              (λ r e. (st.get_whole a.store iid r w.store_valid e).0),
        ),
        record { valid = valid; kept = kept; answer = rw (yes_begun, committed) refl },
      )
    ]
  ]
    where
      b : Acceptor s
      b = record a { store = (s.tx_commit (s.tx_begin a.store).1).1 }

      got : s.get (s.tx_begin a.store).1 iid ≡ some (record_at s st a iid)
      got =
          st.get_lem (s.tx_begin a.store).1 iid (st.begin_valid a.store w.store_valid)
          ∙ ap some (st.begin_keeps a.store iid)

      kept : Unchanged s st a b
      kept = record {
        same_id = refl;
        same_trim = refl;
        same_records = λ k. st.commit_keeps (s.tx_begin a.store).1 k ∙ st.begin_keeps a.store k;
      }

      valid : IsValid s st b
      valid =
          Unchanged-IsValid s st a b kept
            (st.commit_valid (s.tx_begin a.store).1 (st.begin_valid a.store w.store_valid)) w
