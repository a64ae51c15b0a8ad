-- ===== src/Pack/Record.antt =====
-- An accepted record that is packed and unpacked by evpaxos/paxos_types_pack.c.
use native.Mathlib.Nat.{mod-eq_of_lt}
use mathlib.Core.List.{append-nil}
use sciascid_libpaxos_d255f.Base.{
  ℕ, zero, suc, ◌+◌, ◌*◌, ◌-◌, ◌<◌, ◌%◌, ◌^◌, ◌≡◌, refl, ap, ◌∙◌, u32_mod, Bool, true, false,
  Option, none, some, List, [], ◌∷◌, ◌++◌, length, ◌==◌, if◌then◌else◌, ◌>>=◌, not, arith,
  length-append,
}
use sciascid_libpaxos_d255f.Types.{Value, Accepted, Message}
use sciascid_libpaxos_d255f.Accepted.{null_value, WholeValues, stored_values}
use sciascid_libpaxos_d255f.Msgpack.{Object, uint}
use sciascid_libpaxos_d255f.Pack.{
  pack_message, pack_words, pack_if, is_there, of_bool, pack_words_or_zero, pack_values,
}
use sciascid_libpaxos_d255f.Pack.Unpack.{
  uint32_at, value_at, many, many_if, unpack_message, unpack_accepted,
}
use sciascid_libpaxos_d255f.Pack.Elements.{words_lem, values_lem}
use sciascid_libpaxos_d255f.Pack.Sendable.{Fits, received, Arrives}

unpack_accepted_lem :
    (a : Accepted) (is_values : ℕ) (os₁ os₂ os₃ os₄ : List Object) (ids bs vbs : List ℕ)
    (vs : Option (List Value))
    → Fits a
    → ((rest : List Object) → many a.n_aids uint32_at (os₁ ++ rest) ≡ some (ids, rest))
    → is_values < 2 ^ 32
    → ((rest : List Object)
        → many_if (not (is_values == 0)) a.n_aids value_at (os₂ ++ rest) ≡ some (vs, rest))
    → ((rest : List Object) → many a.n_aids uint32_at (os₃ ++ rest) ≡ some (bs, rest))
    → many a.n_aids uint32_at os₄ ≡ some (vbs, [])
    → unpack_accepted (
        uint 0
        ∷ uint a.iid
        ∷ uint a.n_aids
        ∷ uint 1
        ∷ uint is_values
        ∷ (os₁ ++ (os₂ ++ (os₃ ++ os₄))))
      ≡ some (record a {
        src = u32_mod - 1;
        ballot_0 = 0;
        value_ballot_0 = 0;
        aids = some ids;
        value_0 = null_value;
        values = vs;
        ballots = some bs;
        value_ballots = some vbs;
      })
unfolding unpack_accepted uint32_at
unpack_accepted_lem a is_values os₁ os₂ os₃ os₄ ids bs vbs vs f r₁ small_flag r₂ r₃ r₄ =
    rw
      (
        mod-eq_of_lt f.iid_fits,
        small,
        mod-eq_of_lt small_flag,
        r₁ (os₂ ++ (os₃ ++ os₄)),
        r₂ (os₃ ++ os₄),
        r₃ os₄,
        r₄,
      )
      refl
  where
    small : a.n_aids % u32_mod ≡ a.n_aids
    small = mod-eq_of_lt (omega (arith, f.few_aids))

-- What the loop over the values writes and reads, if there are values.
record Values (n : ℕ) (p : Option (List Value)) : Type 0 where
  pub elements : List Object
  pub written : pack_if (is_there n p) (pack_values n p) ≡ some elements
  pub sized : length elements ≡ (if is_there n p then n else 0)
  pub read :
      (rest : List Object)
      → many_if (not (of_bool (is_there n p) == 0)) n value_at (elements ++ rest)
        ≡ some (stored_values p, rest)

Values-whole : (n : ℕ) (p : Option (List Value)) → 0 < n → WholeValues n p → Values n p
unfolding is_there pack_if pack_values many_if stored_values
Values-whole zero p pos w = absurd (omega arith)
Values-whole (suc n) none pos w = record {
  elements = [];
  written = refl;
  sized = refl;
  read = λ rest. refl;
}
Values-whole (suc n) (some vs) pos w =
    let (os, run, len, read) = values_lem (suc n) vs w.0 w.1 in
    record {
      elements = os;
      written = ground (arith, run);
      sized = ground (arith, len);
      read = λ rest. ground (arith, read rest);
    }

words_or_zero_lem :
    (n : ℕ) (p : Option (List ℕ)) (ws : List ℕ)
    → p ≡ some ws
    → pack_words_or_zero n p ≡ pack_words n p
unfolding pack_words_or_zero
words_or_zero_lem n p ws e = rw e refl

is_there_lem :
    (n : ℕ) (p : Option (List ℕ)) (ws : List ℕ) → 0 < n → p ≡ some ws → is_there n p ≡ true
unfolding is_there
is_there_lem n p ws pos e = rw e (ground arith)

pack_accepted_lem :
    (a : Accepted) (os₁ os₂ os₃ os₄ : List Object)
    → is_there a.n_aids a.aids ≡ true
    → pack_words a.n_aids a.aids ≡ some os₁
    → pack_if (is_there a.n_aids a.values) (pack_values a.n_aids a.values) ≡ some os₂
    → pack_words_or_zero a.n_aids a.ballots ≡ some os₃
    → pack_words_or_zero a.n_aids a.value_ballots ≡ some os₄
    → pack_message (Message.accepted a)
      ≡ some (record {
        size = (6 + a.n_aids * 3 + (if is_there a.n_aids a.values then a.n_aids else 0)) % u32_mod;
        elements =
            uint 3
            ∷ uint 0
            ∷ uint a.iid
            ∷ uint a.n_aids
            ∷ uint 1
            ∷ uint (of_bool (is_there a.n_aids a.values))
            ∷ (os₁ ++ (os₂ ++ (os₃ ++ os₄)));
      })
unfolding pack_message
pack_accepted_lem a os₁ os₂ os₃ os₄ there e₁ e₂ e₃ e₄ = rw (there, e₁, e₂, e₃, e₄) refl

unpack_message-accepted :
    (os : List Object)
    → unpack_message (uint 3 ∷ os) ≡ (do v ← unpack_accepted os; some (Message.accepted v))
unfolding unpack_message
unpack_message-accepted os = refl

same_accepted :
    (a : Accepted) (ids bs vbs : List ℕ)
    → a.aids ≡ some ids
    → a.ballots ≡ some bs
    → a.value_ballots ≡ some vbs
    → Message.accepted (record a {
      src = u32_mod - 1;
      ballot_0 = 0;
      value_ballot_0 = 0;
      aids = some ids;
      value_0 = null_value;
      values = stored_values a.values;
      ballots = some bs;
      value_ballots = some vbs;
    })
      ≡ received (Message.accepted a)
same_accepted a ids bs vbs e₁ e₃ e₄ = rw (e₁, e₃, e₄) refl

pub accepted-Arrives : (a : Accepted) → Fits a → Arrives (Message.accepted a)
accepted-Arrives a f =
    let v = Values-whole a.n_aids a.values f.whole.some_aid f.whole.whole_values in
    let (os₁, ids, e₁, run₁, len₁, read₁) =
      words_lem a.n_aids a.aids f.whole.whole_aids f.aids_fit in
    let (os₃, bs, e₃, run₃, len₃, read₃) =
      words_lem a.n_aids a.ballots f.whole.whole_ballots f.ballots_fit in
    let (os₄, vbs, e₄, run₄, len₄, read₄) =
      words_lem a.n_aids a.value_ballots f.whole.whole_value_ballots f.value_ballots_fit in
    record {
      packed = record {
        size = (6 + a.n_aids * 3 + (if is_there a.n_aids a.values then a.n_aids else 0)) % u32_mod;
        elements =
            uint 3
            ∷ uint 0
            ∷ uint a.iid
            ∷ uint a.n_aids
            ∷ uint 1
            ∷ uint (of_bool (is_there a.n_aids a.values))
            ∷ (os₁ ++ (v.elements ++ (os₃ ++ os₄)));
      };
      packs =
          pack_accepted_lem a os₁ v.elements os₃ os₄
            (is_there_lem a.n_aids a.aids ids f.whole.some_aid e₁) run₁ v.written
            (words_or_zero_lem a.n_aids a.ballots bs e₃ ∙ run₃)
            (words_or_zero_lem a.n_aids a.value_ballots vbs e₄ ∙ run₄);
      sized =
          sizes (is_there a.n_aids a.values) a.n_aids os₁ v.elements os₃ os₄ len₁ v.sized len₃ len₄
            f.few_aids;
      unpacks =
          unpack_message-accepted _
          ∙ ap (λ (o : Option Accepted). o >>= (λ r. some (Message.accepted r)))
              (unpack_accepted_lem a (of_bool (is_there a.n_aids a.values)) os₁ v.elements os₃ os₄
                ids bs vbs (stored_values a.values) f read₁ (flag (is_there a.n_aids a.values))
                v.read read₃ (rw (append-nil os₄) at (read₄ [])))
          ∙ ap some (same_accepted a ids bs vbs e₁ e₃ e₄);
    }
  where
    flag : (b : Bool) → of_bool b < 2 ^ 32
    flag true = omega arith
    flag false = omega arith

    sizes :
        (b : Bool) (n : ℕ) (xs bs cs ds : List Object)
        → length xs ≡ n
        → length bs ≡ (if b then n else 0)
        → length cs ≡ n
        → length ds ≡ n
        → 4 * n + 7 < 2 ^ 32
        → suc (suc (suc (suc (suc (suc (length (xs ++ (bs ++ (cs ++ ds)))))))))
          ≡ (6 + n * 3 + (if b then n else 0)) % u32_mod
    sizes true n xs bs cs ds ha hb hc hd few = omega (
      arith,
      length-append xs (bs ++ (cs ++ ds)),
      length-append bs (cs ++ ds),
      length-append cs ds,
      ha,
      hb,
      hc,
      hd,
      few,
    )
    sizes false n xs bs cs ds ha hb hc hd few = omega (
      arith,
      length-append xs (bs ++ (cs ++ ds)),
      length-append bs (cs ++ ds),
      length-append cs ds,
      ha,
      hb,
      hc,
      hd,
      few,
    )
