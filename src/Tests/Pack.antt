-- ===== src/Tests/Pack.antt =====
-- evpaxos/paxos_types_pack.c: a message that is packed and unpacked.
use sciascid_libpaxos_d255f.Base.{arith}
use sciascid_libpaxos_d255f.Types.{Message}
use sciascid_libpaxos_d255f.Pack.Sendable.{Fits, Arrives}
use sciascid_libpaxos_d255f.Pack.RoundTrip.{unpack-pack}
use sciascid_libpaxos_d255f.Tests.Samples.{accepted_by, accepted_by-IsWhole}

one-Fits : Fits (accepted_by 1)
one-Fits = record {
  whole = accepted_by-IsWhole 1;
  src_fits = omega arith;
  iid_fits = omega arith;
  ballot_0_fits = omega arith;
  value_ballot_0_fits = omega arith;
  few_aids = omega arith;
  aids_fit = (omega arith, tt);
  ballots_fit = (omega arith, tt);
  value_ballots_fit = (omega arith, tt);
}

unpack-pack_example : Arrives (Message.accepted (accepted_by 1))
unpack-pack_example = unpack-pack (Message.accepted (accepted_by 1)) one-Fits
