-- ===== src/Pack/Promise.antt =====
-- A promise that is packed and unpacked by evpaxos/paxos_types_pack.c.
use native.Mathlib.Nat.{mod-eq_of_lt}
use mathlib.Core.List.{append-nil}
use sciascid_libpaxos_d255f.Base.{
  ℕ, ◌+◌, ◌%◌, ◌≡◌, refl, ap, ◌∙◌, u32_mod, Option, some, List, [], ◌∷◌, ◌++◌, map, ◌>>=◌, subst,
  arith,
}
use sciascid_libpaxos_d255f.Types.{Value, Accepted, Message}
use sciascid_libpaxos_d255f.Accepted.{WholeValue, WholeValues, stored_value, stored_values}
use sciascid_libpaxos_d255f.Msgpack.{Object, uint}
use sciascid_libpaxos_d255f.Pack.{
  pack_promise, pack_message, pack_value, pack_words, pack_each, pack_values,
}
use sciascid_libpaxos_d255f.Pack.Unpack.{uint32_at, value_at, many, unpack_message, unpack_promise}
use sciascid_libpaxos_d255f.Pack.Elements.{Carries-whole, words_lem, values_lem}
use sciascid_libpaxos_d255f.Pack.Sendable.{Fits, received, Arrives, length-four}

pack_values-some :
    (n : ℕ) (p : Option (List Value)) (vs : List Value)
    → p ≡ some vs
    → pack_values n p ≡ pack_each n vs
unfolding pack_values
pack_values-some n p vs e = rw e refl

pack_promise_lem :
    (a : Accepted) (o : Object) (os₁ os₂ os₃ os₄ : List Object)
    → pack_value a.value_0 ≡ some o
    → pack_words a.n_aids a.aids ≡ some os₁
    → pack_values a.n_aids a.values ≡ some os₂
    → pack_words a.n_aids a.ballots ≡ some os₃
    → pack_words a.n_aids a.value_ballots ≡ some os₄
    → pack_promise a
      ≡ some (record {
        size = (7 + a.n_aids + a.n_aids + a.n_aids + a.n_aids) % u32_mod;
        elements =
            uint 1
            ∷ uint a.src
            ∷ uint a.iid
            ∷ uint a.ballot_0
            ∷ uint a.value_ballot_0
            ∷ uint a.n_aids
            ∷ o
            ∷ (os₁ ++ (os₂ ++ (os₃ ++ os₄)));
      })
unfolding pack_promise
pack_promise_lem a o os₁ os₂ os₃ os₄ e₀ e₁ e₂ e₃ e₄ = rw (e₀, e₁, e₂, e₃, e₄) refl

unpack_promise_lem :
    (a : Accepted) (o : Object) (os₁ os₂ os₃ os₄ : List Object) (ids bs vbs : List ℕ)
    (vs : List Value)
    → Fits a
    → ((rest : List Object) → value_at (o ∷ rest) ≡ some (stored_value a.value_0, rest))
    → ((rest : List Object) → many a.n_aids uint32_at (os₁ ++ rest) ≡ some (ids, rest))
    → ((rest : List Object) → many a.n_aids value_at (os₂ ++ rest) ≡ some (vs, rest))
    → ((rest : List Object) → many a.n_aids uint32_at (os₃ ++ rest) ≡ some (bs, rest))
    → many a.n_aids uint32_at os₄ ≡ some (vbs, [])
    → unpack_promise (
        uint a.src
        ∷ uint a.iid
        ∷ uint a.ballot_0
        ∷ uint a.value_ballot_0
        ∷ uint a.n_aids
        ∷ o
        ∷ (os₁ ++ (os₂ ++ (os₃ ++ os₄))))
      ≡ some (record a {
        aids = some ids;
        value_0 = stored_value a.value_0;
        values = some vs;
        ballots = some bs;
        value_ballots = some vbs;
      })
unfolding unpack_promise uint32_at
unpack_promise_lem a o os₁ os₂ os₃ os₄ ids bs vbs vs f r₀ r₁ r₂ r₃ r₄ =
    rw
      (
        mod-eq_of_lt f.src_fits,
        mod-eq_of_lt f.iid_fits,
        mod-eq_of_lt f.ballot_0_fits,
        mod-eq_of_lt f.value_ballot_0_fits,
        small,
        r₀ (os₁ ++ (os₂ ++ (os₃ ++ os₄))),
        r₁ (os₂ ++ (os₃ ++ os₄)),
        r₂ (os₃ ++ os₄),
        r₃ os₄,
        r₄,
      )
      refl
  where
    small : a.n_aids % u32_mod ≡ a.n_aids
    small = mod-eq_of_lt (omega (arith, f.few_aids))

pack_message-promise : (a : Accepted) → pack_message (Message.promise a) ≡ pack_promise a
unfolding pack_message
pack_message-promise a = refl

unpack_message-promise :
    (os : List Object)
    → unpack_message (uint 1 ∷ os) ≡ (do v ← unpack_promise os; some (Message.promise v))
unfolding unpack_message
unpack_message-promise os = refl

same_promise :
    (a : Accepted) (vs : List Value) (ids bs vbs : List ℕ)
    → a.values ≡ some vs
    → a.aids ≡ some ids
    → a.ballots ≡ some bs
    → a.value_ballots ≡ some vbs
    → Message.promise (record a {
      aids = some ids;
      value_0 = stored_value a.value_0;
      values = some (map stored_value vs);
      ballots = some bs;
      value_ballots = some vbs;
    })
      ≡ received (Message.promise a)
unfolding stored_values
same_promise a vs ids bs vbs ev e₁ e₃ e₄ = rw (ev, e₁, e₃, e₄) refl

-- A promise whose values are `vs`.
pub promise-Arrives :
    (a : Accepted) (vs : List Value)
    → Fits a
    → WholeValue a.value_0
    → a.values ≡ some vs
    → Arrives (Message.promise a)
promise-Arrives a vs f w0 ev =
    let c = Carries-whole a.value_0 w0 in
    let w = subst (λ p. WholeValues a.n_aids p) ev f.whole.whole_values in
    let (os₁, ids, e₁, run₁, len₁, read₁) =
      words_lem a.n_aids a.aids f.whole.whole_aids f.aids_fit in
    let (os₂, run₂, len₂, read₂) = values_lem a.n_aids vs w.0 w.1 in
    let (os₃, bs, e₃, run₃, len₃, read₃) =
      words_lem a.n_aids a.ballots f.whole.whole_ballots f.ballots_fit in
    let (os₄, vbs, e₄, run₄, len₄, read₄) =
      words_lem a.n_aids a.value_ballots f.whole.whole_value_ballots f.value_ballots_fit in
    record {
      packed = record {
        size = (7 + a.n_aids + a.n_aids + a.n_aids + a.n_aids) % u32_mod;
        elements =
            uint 1
            ∷ uint a.src
            ∷ uint a.iid
            ∷ uint a.ballot_0
            ∷ uint a.value_ballot_0
            ∷ uint a.n_aids
            ∷ c.element
            ∷ (os₁ ++ (os₂ ++ (os₃ ++ os₄)));
      };
      packs =
          pack_message-promise a
          ∙ pack_promise_lem a c.element os₁ os₂ os₃ os₄ c.written run₁
              (pack_values-some a.n_aids a.values vs ev ∙ run₂) run₃ run₄;
      sized = omega (arith, length-four a.n_aids os₁ os₂ os₃ os₄ len₁ len₂ len₃ len₄, f.few_aids);
      unpacks =
          unpack_message-promise _
          ∙ ap (λ (o : Option Accepted). o >>= (λ v. some (Message.promise v)))
              (unpack_promise_lem a c.element os₁ os₂ os₃ os₄ ids bs vbs (map stored_value vs) f
                c.read read₁ read₂ read₃ (rw (append-nil os₄) at (read₄ [])))
          ∙ ap some (same_promise a vs ids bs vbs ev e₁ e₃ e₄);
    }
