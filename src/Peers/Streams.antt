-- ===== src/Peers/Streams.antt =====
-- `on_read` of evpaxos/peers.c on what `send_paxos_message` of evpaxos/message.c has written.
use sciascid_libpaxos_d255f.Base.{
  ℕ, zero, suc, ◌≤◌, ◌<◌, ◌≡◌, refl, sym, ap, ◌∙◌, Option, none, some, List, [], ◌∷◌, ◌++◌, length,
  length-append, ◌>>=◌, inl, inr, ◌*◌, Option-cases, arith,
}
use sciascid_libpaxos_d255f.Types.{Message}
use sciascid_libpaxos_d255f.Msgpack.{Msgpack, IsMsgpack, Unpacked, success, more, error}
use sciascid_libpaxos_d255f.Pack.Unpack.{unpack_message}
use sciascid_libpaxos_d255f.Pack.Sendable.{Sendable, received}
use sciascid_libpaxos_d255f.Pack.RoundTrip.{unpack-pack}
use sciascid_libpaxos_d255f.Transport.{send_message, recv_message}
use sciascid_libpaxos_d255f.Peers.Reading.{Subscription, dispatch, read_each, on_read}

-- The messages can be sent.
abbrev pub AllSendable : List Message → Type 0
AllSendable [] = Unit {0}
AllSendable (msg ∷ msgs) = Sendable msg × AllSendable msgs

-- The bytes of the messages, one behind the other, and then the bytes `tail`.
abbrev pub stream : Msgpack → List Message → List ℕ → Option (List ℕ)
stream m [] tail = some tail
stream m (msg ∷ msgs) tail = do
  bs ← send_message m msg
  rest ← stream m msgs tail
  some (bs ++ rest)

-- The callbacks of each message, in the order of the messages.
abbrev pub dispatch_all : {S : Type 0} → List (Subscription S) → List Message → S → Option S
dispatch_all subs [] s = some s
dispatch_all subs (msg ∷ msgs) s = do s' ← dispatch subs (received msg) s; dispatch_all subs msgs s'

module _ (m : Msgpack) (ok : IsMsgpack m) (drain : ℕ → List ℕ → List ℕ) where
  -- `recv_paxos_message` finds no message in these bytes yet.
  abbrev pub Incomplete : List ℕ → Type 0
  Incomplete bs = recv_message m drain bs ≡ some (none, bs)

  recv-next :
      (b : ℕ) (cs : List ℕ) (u : Unpacked)
      → m.next (b ∷ cs) ≡ u
      → recv_message m drain (b ∷ cs) ≡ elim u [
        | success os rest ↦ (do msg ← unpack_message os; some (some msg, rest))
        | more ↦ some (none, b ∷ cs)
        | error ↦ some (none, drain (2 * 1024 * 1024) (b ∷ cs))
      ]
  unfolding recv_message
  recv-next b cs u e =
      ap
        (λ (u : Unpacked). elim u [
          | success os rest ↦ (do msg ← unpack_message os; some (some msg, rest))
          | more ↦ some (none, b ∷ cs)
          | error ↦ some (none, drain (2 * 1024 * 1024) (b ∷ cs))
        ])
        e

  -- What one message leaves behind it in the buffer.
  recv-send :
      (msg : Message) (rest : List ℕ)
      → Sendable msg
      → (bs : List ℕ) × (send_message m msg ≡ some bs)
        × (0 < length bs)
        × (recv_message m drain (bs ++ rest) ≡ some (some (received msg), rest))
  unfolding send_message
  recv-send msg rest w =
      let a = unpack-pack msg w in
      let (b, cs, e) = ok.encode_some a.packed in
      let same : m.encode a.packed ++ rest ≡ b ∷ (cs ++ rest) = ap (λ xs. xs ++ rest) e in
      (
        m.encode a.packed,
        rw a.packs refl,
        omega (arith, ap length e),
        ap (recv_message m drain) same
            ∙ recv-next b (cs ++ rest) (success a.packed.elements rest)
                (ap m.next (sym same) ∙ ok.next-encode a.packed rest a.sized)
            ∙ rw a.unpacks refl,
      )

  module _ {S : Type 0} (subs : List (Subscription S)) where
    -- What the loop does with the bytes of the messages.
    record Reads (msgs : List Message) (tail : List ℕ) : Type 0 where
      pub bytes : List ℕ
      pub written : stream m msgs tail ≡ some bytes
      pub enough : length msgs ≤ length bytes
      pub reads :
          (n : ℕ) (s : S)
          → length msgs < n
          → read_each m drain subs n bytes s ≡ (do s' ← dispatch_all subs msgs s; some (tail, s'))

    read_each-none :
        (n : ℕ) (bs : List ℕ) (s : S)
        → recv_message m drain bs ≡ some (none, bs)
        → read_each m drain subs (suc n) bs s ≡ some (bs, s)
    unfolding read_each
    read_each-none n bs s e = rw e refl

    read_each-some :
        (n : ℕ) (bs rest : List ℕ) (msg : Message) (s : S)
        → recv_message m drain bs ≡ some (some msg, rest)
        → read_each m drain subs (suc n) bs s
          ≡ (do s' ← dispatch subs msg s; read_each m drain subs n rest s')
    unfolding read_each
    read_each-some n bs rest msg s e = rw e refl

    reads_lem :
        (msgs : List Message) (tail : List ℕ) → AllSendable msgs → Incomplete tail → Reads msgs tail
    reads_lem [] tail w none_yet = record {
      bytes = tail;
      written = refl;
      enough = omega arith;
      reads = first_none;
    }
      where
        first_none : (n : ℕ) (s : S) → 0 < n → read_each m drain subs n tail s ≡ some (tail, s)
        first_none zero s h = absurd (omega arith)
        first_none (suc n) s h = read_each-none n tail s none_yet
    reads_lem (msg ∷ msgs) tail (w, ws) none_yet =
        let r = reads_lem msgs tail ws none_yet in
        let (bs, sent, some_bytes, run) = recv-send msg r.bytes w in
        record {
          bytes = bs ++ r.bytes;
          written = rw (sent, r.written) refl;
          enough = omega (arith, length-append bs r.bytes, r.enough, some_bytes);
          reads = next r (bs ++ r.bytes) run;
        }
      where
        next :
            (r : Reads msgs tail) (bytes : List ℕ)
            → recv_message m drain bytes ≡ some (some (received msg), r.bytes)
            → (n : ℕ) (s : S) → suc (length msgs) < n
            → read_each m drain subs n bytes s
              ≡ (do s' ← dispatch_all subs (msg ∷ msgs) s; some (tail, s'))
        next r bytes run zero s h = absurd (omega arith)
        next r bytes run (suc n) s h =
            read_each-some n bytes r.bytes (received msg) s run
            ∙ (elim (Option-cases (dispatch subs (received msg) s)) [
              | inl e ↦ rw e refl
              | inr (s', e) ↦ rw e (r.reads n s' (omega arith))
            ])

  -- However many messages that can be sent wait in the buffer, with any part of a message behind
  -- them, `on_read` hands each of them to the callbacks, as the unpacking restores it (`received`) and
  -- in the order in which they were sent, and leaves the bytes behind them. It fails only where a
  -- callback fails. Restored is every field that is sent: not the source, `ballot_0`,
  -- `value_ballot_0` and `value_0` of an accepted record, and not the pointer of an empty value.
  pub on_read-stream :
      {S : Type 0} (subs : List (Subscription S)) (msgs : List Message) (tail : List ℕ) (s : S)
      → AllSendable msgs
      → Incomplete tail
      → (bytes : List ℕ) × (stream m msgs tail ≡ some bytes)
        × (on_read m drain subs bytes s ≡ (do s' ← dispatch_all subs msgs s; some (tail, s')))
  unfolding on_read
  on_read-stream subs msgs tail s w none_yet =
      let r = reads_lem subs msgs tail w none_yet in
      (r.bytes, r.written, r.reads (suc (length r.bytes)) s (omega (arith, r.enough)))
