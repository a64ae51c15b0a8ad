-- ===== src/Tests/Samples.antt =====
-- Records that the runs share.
use sciascid_libpaxos_d255f.Base.{ℕ, refl, inr, some, [], ◌∷◌, arith}
use sciascid_libpaxos_d255f.Types.{Value, Accepted}
use sciascid_libpaxos_d255f.Accepted.{null_value, IsWhole, WholeValue}

abbrev pub bar : Value
bar = record { len = 3; val = some (0x62 ∷ 0x61 ∷ 0x72 ∷ []) }

-- What acceptor `i` stores when it accepts "bar" with ballot 101 in instance 1.
abbrev pub accepted_by : ℕ → Accepted
accepted_by i = record {
  src = 2;
  iid = 1;
  ballot_0 = 101;
  value_ballot_0 = 101;
  n_aids = 1;
  aids = some (i ∷ []);
  value_0 = null_value;
  values = some (bar ∷ []);
  ballots = some (101 ∷ []);
  value_ballots = some (101 ∷ []);
}

pub bar-IsWhole : WholeValue bar
bar-IsWhole = inr (_, refl, refl)

pub accepted_by-IsWhole : (i : ℕ) → IsWhole (accepted_by i)
accepted_by-IsWhole i = record {
  some_aid = omega arith;
  whole_aids = refl;
  whole_values = (refl, (inr (_, refl, refl), tt));
  whole_ballots = refl;
  whole_value_ballots = refl;
}
