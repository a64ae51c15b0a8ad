-- ===== src/Evacceptor/Replaying.antt =====
-- `evacceptor_handle_repeat` of evpaxos/evacceptor.c: which records it sends, and when it ends.
use native.Mathlib.Nat.{mod-eq_of_lt}
use sciascid_libpaxos_d255f.Base.{
  ℕ, zero, suc, ◌+◌, ◌-◌, ◌%◌, ◌^◌, ◌≤◌, ◌<◌, ◌≡◌, refl, ◌∙◌, u32_mod, true, false, Option, some,
  List, [], ◌++◌, leb, ◌>>=◌, arith,
}
use sciascid_libpaxos_d255f.Types.{Accepted, Repeat}
use sciascid_libpaxos_d255f.Storage.{StorageApi, IsStorage}
use sciascid_libpaxos_d255f.Acceptor.{Acceptor}
use sciascid_libpaxos_d255f.Acceptor.Service.{receive_repeat}
use sciascid_libpaxos_d255f.Acceptor.Steps.{Unchanged}
use sciascid_libpaxos_d255f.Acceptor.Valid.{IsValid, record_at}
use sciascid_libpaxos_d255f.Acceptor.Repeating.{repeatable, Repeated, receive_repeat_lem}
use sciascid_libpaxos_d255f.Evacceptor.{Output, answer_repeat, repeat_each, handle_repeat}

module _ (s : StorageApi) (st : IsStorage s) where
  -- Every transaction begins and commits.
  pub record Works : Type 0 where
    pub begins : (h : s.Handle) → (s.tx_begin h).0 ≡ true
    pub commits : (h : s.Handle) → (s.tx_commit h).0 ≡ true

  -- The answers for the `n` instances from `iid` on: each record with a value that is not empty.
  abbrev pub replays : Acceptor s → ℕ → ℕ → List Output
  replays a iid zero = []
  replays a iid (suc n) = answer_repeat (repeatable (record_at s st a iid)) ++ replays a (iid + 1) n

  replays-Unchanged :
      (a a' : Acceptor s) (iid n : ℕ) → Unchanged s st a a' → replays a' iid n ≡ replays a iid n
  replays-Unchanged a a' iid zero u = refl
  replays-Unchanged a a' iid (suc n) u =
      rw (u.same_records iid, replays-Unchanged a a' (iid + 1) n u) refl

  Unchanged-trans :
      (a b c : Acceptor s) → Unchanged s st a b → Unchanged s st b c → Unchanged s st a c
  Unchanged-trans a b c u v = record {
    same_id = v.same_id ∙ u.same_id;
    same_trim = v.same_trim ∙ u.same_trim;
    same_records = λ k. v.same_records k ∙ u.same_records k;
  }

  repeat_each-past :
      (n iid to : ℕ) (a : Acceptor s)
      → leb iid to ≡ false
      → repeat_each s (suc n) iid to a ≡ some ([], true, a)
  unfolding repeat_each
  repeat_each-past n iid to a e = rw (e, repeat_each) refl

  repeat_each-next :
      (n iid to : ℕ) (a : Acceptor s)
      → leb iid to ≡ true
      → repeat_each s (suc n) iid to a ≡ (do
        (out, a₁) ← receive_repeat s a iid
        (outs, ended, a₂) ← repeat_each s n ((iid + 1) % u32_mod) to a₁
        some (answer_repeat out ++ outs, ended, a₂))
  unfolding repeat_each
  repeat_each-next n iid to a e = rw (e, repeat_each) refl

  served :
      (a a' : Acceptor s) (iid : ℕ) (out : Option Accepted)
      → Works
      → Repeated s st a iid out a'
      → out ≡ repeatable (record_at s st a iid)
  served a a' iid out ok r =
      r.answer ∙ rw (ok.begins a.store, ok.commits (s.tx_begin a.store).1) refl

  no_wrap : (iid to : ℕ) → to + 1 < 2 ^ 32 → iid ≤ to → (iid + 1) % u32_mod ≡ iid + 1
  no_wrap iid to fits le = mod-eq_of_lt (omega arith)

  repeat_each_lem :
      (m n iid to : ℕ) (a : Acceptor s)
      → Works
      → IsValid s st a
      → to + 1 < 2 ^ 32
      → m ≡ to + 1 - iid
      → m < n
      → (a' : Acceptor s) × (repeat_each s n iid to a ≡ some (replays a iid m, true, a'))
        × IsValid s st a'
        × Unchanged s st a a'
  repeat_each_lem m zero iid to a ok w fits is few = absurd (omega arith)
  repeat_each_lem zero (suc n) iid to a ok w fits is few = (
    a,
    repeat_each-past n iid to a (ground arith),
    w,
    record { same_id = refl; same_trim = refl; same_records = λ k. refl },
  )
  repeat_each_lem (suc m) (suc n) iid to a ok w fits is few =
      let (out, a₁, run, r) = receive_repeat_lem s st a iid w in
      let (a₂, rest, w₂, u) =
        repeat_each_lem m n (iid + 1) to a₁ ok r.valid fits (omega arith) (omega arith) in
      (
        a₂,
        repeat_each-next n iid to a (ground arith)
            ∙ rw
                (
                  run,
                  no_wrap iid to fits (omega arith),
                  rest,
                  served a a₁ iid out ok r,
                  replays-Unchanged a a₁ (iid + 1) m r.kept,
                )
                refl,
        w₂,
        Unchanged-trans a a₁ a₂ r.kept u,
      )

  -- Over a storage that works, `evacceptor_handle_repeat` ends and never faults for a range whose end
  -- is not the largest 32-bit number. It sends the record of each instance of the range that has a
  -- value which is not empty, in the order of the instances, and nothing else, and changes no record.
  pub handle_repeat_lem :
      (a : Acceptor s) (req : Repeat)
      → Works
      → IsValid s st a
      → req.to + 1 < 2 ^ 32
      → (a' : Acceptor s) × (handle_repeat s a req
          ≡ some (replays a req.from (req.to + 1 - req.from), a'))
        × IsValid s st a'
        × Unchanged s st a a'
  unfolding handle_repeat
  handle_repeat_lem a req ok w fits =
      let (a', run, valid, u) =
        repeat_each_lem (req.to + 1 - req.from) (suc (suc req.to - req.from)) req.from req.to a ok w
          fits refl (omega arith) in
      (a', rw run refl, valid, u)

  -- For a range that ends at the largest 32-bit number, the loop of `evacceptor_handle_repeat` never
  -- ends: however many rounds it has made, none has faulted or changed a record, and it goes on.
  pub repeat_each-endless :
      (n iid : ℕ) (a : Acceptor s)
      → IsValid s st a
      → iid < 2 ^ 32
      → (outs : List Output) × (a' : Acceptor s) × (repeat_each s n iid (2 ^ 32 - 1) a
          ≡ some (outs, false, a'))
        × IsValid s st a'
        × Unchanged s st a a'
  unfolding repeat_each
  repeat_each-endless zero iid a w h =
      ([], a, refl, w, record { same_id = refl; same_trim = refl; same_records = λ k. refl })
  repeat_each-endless (suc n) iid a w h =
      let (out, a₁, run, r) = receive_repeat_lem s st a iid w in
      let (outs, a₂, rest, w₂, u) =
        repeat_each-endless n ((iid + 1) % u32_mod) a₁ r.valid (omega arith) in
      (
        answer_repeat out ++ outs,
        a₂,
        repeat_each-next n iid (2 ^ 32 - 1) a (ground arith) ∙ rw (run, rest) refl,
        w₂,
        Unchanged-trans a a₁ a₂ r.kept u,
      )
