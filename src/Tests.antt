-- ===== src/Tests.antt =====
-- Runs of the models on small inputs, and the theorems at such inputs.
pub mod Samples
mod Carray
mod Quorum
mod Storage
mod Acceptor
mod Evacceptor
mod Learner
mod Evlearner
mod Proposer
mod Evproposer
mod Pack
mod Peers
mod Msgpack
mod Evreplica
