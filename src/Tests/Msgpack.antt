-- ===== src/Tests/Msgpack.antt =====
-- A simple encoding that keeps what is documented of the msgpack library, and messages sent with it.
use mathlib.Core.List.{append_assoc}
use sciascid_libpaxos_d255f.Base.{
  ℕ, zero, suc, ◌≡◌, refl, sym, ap, ◌∙◌, ◌==◌, if◌then◌else◌, Option, none, some, List, [], ◌∷◌,
  ◌++◌, length, ◌>>=◌, arith,
}
use sciascid_libpaxos_d255f.Types.{Message}
use sciascid_libpaxos_d255f.Msgpack.{
  Object, uint, bin, Packed, Unpacked, success, more, Msgpack, IsMsgpack,
}
use sciascid_libpaxos_d255f.Transport.{recv_message}
use sciascid_libpaxos_d255f.Peers.Reading.{Subscription, on_read}
use sciascid_libpaxos_d255f.Peers.Streams.{stream, dispatch_all, on_read-stream}

abbrev written : Object → List ℕ
written (uint n) = 0 ∷ n ∷ []
written (bin bs) = 1 ∷ length bs ∷ bs

abbrev all_written : List Object → List ℕ
all_written [] = []
all_written (o ∷ os) = written o ++ all_written os

abbrev take_bytes : ℕ → List ℕ → Option (List ℕ × List ℕ)
take_bytes zero bs = some ([], bs)
take_bytes (suc n) [] = none
take_bytes (suc n) (b ∷ bs) = do (cs, rest) ← take_bytes n bs; some (b ∷ cs, rest)

abbrev take_object : List ℕ → Option (Object × List ℕ)
take_object [] = none
take_object (t ∷ []) = none
take_object (t ∷ n ∷ bs) =
    let bytes = take_bytes n bs in
    if t == 0 then some (uint n, bs) else (do (cs, rest) ← bytes; some (bin cs, rest))

abbrev take_objects : ℕ → List ℕ → Option (List Object × List ℕ)
take_objects zero bs = some ([], bs)
take_objects (suc n) bs = do
  (o, bs₁) ← take_object bs
  (os, bs₂) ← take_objects n bs₁
  some (o ∷ os, bs₂)

abbrev next_message : List ℕ → Unpacked
next_message [] = more
next_message (n ∷ bs) = elim (take_objects n bs) [ none ↦ more | some (os, rest) ↦ success os rest ]

take_bytes-append : (bs rest : List ℕ) → take_bytes (length bs) (bs ++ rest) ≡ some (bs, rest)
take_bytes-append [] rest = refl
take_bytes-append (b ∷ bs) rest = rw (take_bytes-append bs rest) refl

take_object-written :
    (o : Object) (rest : List ℕ) → take_object (written o ++ rest) ≡ some (o, rest)
take_object-written (uint n) rest = refl
take_object-written (bin bs) rest = rw (take_bytes-append bs rest) refl

take_objects-written :
    (os : List Object) (rest : List ℕ)
    → take_objects (length os) (all_written os ++ rest) ≡ some (os, rest)
take_objects-written [] rest = refl
take_objects-written (o ∷ os) rest =
    ap (take_objects (suc (length os))) (append_assoc (written o) (all_written os) rest)
    ∙ rw (take_object-written o (all_written os ++ rest), take_objects-written os rest) refl

unfoldable simple : Msgpack
simple = record { encode = λ p. p.size ∷ all_written p.elements; next = next_message }

simple-IsMsgpack : IsMsgpack simple
unfolding simple
simple-IsMsgpack = record {
  next-encode = λ p rest sized. read_back p rest sized;
  encode_some = λ p. (_, _, refl);
}
  where
    read_back :
        (p : Packed) (rest : List ℕ)
        → length p.elements ≡ p.size
        → next_message (p.size ∷ (all_written p.elements ++ rest)) ≡ success p.elements rest
    read_back p rest sized =
        ap (λ n. next_message (n ∷ (all_written p.elements ++ rest))) (sym sized)
        ∙ ap
            (λ (o : Option (List Object × List ℕ)). elim o [
              | none ↦ more
              | some (os, left) ↦ success os left
            ])
            (take_objects-written p.elements rest)

-- As `evbuffer_drain` is documented: all bytes if there are fewer.
abbrev drop_bytes : ℕ → List ℕ → List ℕ
drop_bytes zero bs = bs
drop_bytes (suc n) [] = []
drop_bytes (suc n) (b ∷ bs) = drop_bytes n bs

-- Callbacks that keep the ids that they are told to trim, the newest first.
abbrev keep_trims : List (Subscription (List ℕ))
keep_trims =
    record {
      type = 6;
      callback = λ msg ids. elim msg [ Message.trim iid ↦ some (iid ∷ ids) | _ ↦ none ];
    }
    ∷ []

on_read-stream_example :
    (bytes : List ℕ) × (stream simple (Message.trim 7 ∷ Message.trim 9 ∷ []) [] ≡ some bytes)
    × (on_read simple drop_bytes keep_trims bytes [] ≡ (do
      s' ← dispatch_all keep_trims (Message.trim 7 ∷ Message.trim 9 ∷ []) []
      some ([], s')))
unfolding recv_message
on_read-stream_example =
    on_read-stream simple simple-IsMsgpack drop_bytes keep_trims
      (Message.trim 7 ∷ Message.trim 9 ∷ []) [] [] (omega arith, (omega arith, tt)) refl

-- Both ids arrive, in order.
trims_arrive :
    on_read simple drop_bytes keep_trims (2 ∷ 0 ∷ 6 ∷ 0 ∷ 7 ∷ 2 ∷ 0 ∷ 6 ∷ 0 ∷ 9 ∷ []) []
    ≡ some ([], 9 ∷ 7 ∷ [])
unfolding on_read simple
trims_arrive = refl
