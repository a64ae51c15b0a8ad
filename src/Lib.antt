-- ===== src/Lib.antt =====
-- Verification of LibPaxos: the proposer, the acceptor, the learner, the in-memory storage and the
-- containers they use, in C under paxos/, and the nodes that exchange messages with them, under
-- evpaxos/.
--
-- A proposer asks the acceptors to promise a ballot for an instance (prepare), then to accept a
-- value with it (accept). An acceptor decides by the record of the instance in its storage and
-- answers with a promise, with the accepted record or with the larger ballot that preempts the
-- request. A learner gathers accepted records for each instance, closes an instance when a majority
-- of acceptors agrees, and delivers the instances in order.
--
-- Files, and the code that they are about:
-- - Types: the structs of paxos/include/paxos_types.h, and paxos_quorum of paxos/paxos.c.
--   paxos_promise has the fields of paxos_accepted and shares its record.
-- - Accepted: paxos_accepted as heap data. A pointer to an array is an Option of a list, NULL is
--   none, and IsWhole says that the arrays are as long as n_aids.
-- - Carray: paxos/carray.c, a growing ring buffer. Carray/Window and Carray/Refine relate it to a
--   queue.
-- - Quorum: paxos/quorum.c. Quorum/Marks counts the marked acceptors.
-- - KHash: what the code asks of paxos/include/khash.h, the hash table of the klib library, which is
--   a parameter. KHash/Assoc is a list that keeps those laws.
-- - Storage: the operations of struct storage in paxos/include/storage.h, and the contract that the
--   acceptor relies on. Storage/Mem is paxos/storage_mem.c and Storage/Mem/Laws shows the contract.
-- - Acceptor: acceptor_new, acceptor_receive_prepare and acceptor_receive_accept of
--   paxos/acceptor.c; Acceptor/Convert the conversions between messages, Acceptor/Service
--   acceptor_receive_repeat, acceptor_receive_trim and acceptor_set_current_state, Acceptor/Forward
--   the search of the acceptor that a reply is passed back to. The other files of Acceptor/ hold
--   proofs.
-- - Learner: paxos/learner.c. The files of Learner/ hold proofs about votes, closing, updates,
--   messages and delivery.
-- - Proposer: the instances, ballots and first phase of paxos/proposer.c; Proposer/Accepts its second
--   phase, preemption and trimming; Proposer/Timeouts its timeouts. The time that gettimeofday gives
--   is an argument. The other files of Proposer/ hold proofs.
-- - Evacceptor: the handlers of evpaxos/evacceptor.c and evacceptor_fwd_promise, _accepted and
--   _preempted, as lists of what is sent. Evacceptor/Telling and Evacceptor/Replaying hold proofs.
-- - Evlearner: the handler of evpaxos/evlearner.c with its loop of deliveries, over Learner.
--   The files of Evlearner/ hold proofs.
-- - Evproposer: the handlers of evpaxos/evproposer.c with the loops of try_accept and
--   proposer_preexecute, over Proposer. The files of Evproposer/ hold proofs.
-- - Peers: evpaxos/peers.c without its sockets: whom a node connects to, its clients, and to whom it
--   passes messages down. An event of libevent is an argument. Peers/Groups, Peers/Links, Peers/Clients
--   and Peers/Down hold proofs.
-- - Transport: send_paxos_message, recv_paxos_message and paxos_submit of evpaxos/message.c over lists
--   of bytes. Peers/Reading: the subscriptions and on_read of evpaxos/peers.c; Peers/Streams puts
--   both together.
-- - Evreplica: evpaxos/evreplica.c, an acceptor, a proposer and a learner in one node, without its
--   threads. Its other files hold proofs: Submitting, Delivering and Dispatching.
-- - Msgpack: the objects and messages of the msgpack library, as much as the code uses. Pack: the
--   packers of evpaxos/paxos_types_pack.c, Pack/Unpack the unpackers; the other files of Pack/ hold
--   proofs. A string is shorter than 2 ^ 31 bytes.
-- - Base: helpers. Tests: runs on small inputs, and each theorem applied at one.
--
-- State is passed explicitly. A call whose C code reads or writes outside an array, goes through
-- NULL or fails an assert is none, so a theorem that gives a result also says that this does not
-- happen. Loops run over a list or over a counter that the code fixes before it starts, but for four
-- that have fuel. The rounds of deliver_next_closed and accept_each each take an instance out of a
-- table, so one more than its number of keys is enough; repeat_each gets one more than the size of its
-- range, and read_each one more than the bytes that wait, since each message takes one. Only
-- carray_push_back and carray_grow call one another: their depth is bounded by 1, since carray_grow
-- pushes into an array of twice the size. uint32_t values are natural numbers; an increment that may
-- wrap is taken modulo 2 ^ 32, and int stands for an integer where a sign occurs. The size of a carray
-- is a natural number: carray_grow doubles an int, which overflows for an array of 2 ^ 30 cells, and
-- that is not modelled. Allocation succeeds except where the code tests it through the hash table;
-- freeing memory and logging are left out.
--
-- Not modelled: LMDB, the record encoding of paxos/storage_utils.c, which only LMDB uses, the threads,
-- the event loop and sockets under evpaxos/, the count of subordinates in evacceptor_init_internal,
-- the configuration file of evpaxos/config.c, the samples and the tests.
pub mod Base
pub mod Types
pub mod Carray
pub mod Quorum
pub mod KHash
pub mod Accepted
pub mod Storage
pub mod Acceptor
pub mod Learner
pub mod Proposer
pub mod Evacceptor
pub mod Evlearner
pub mod Evproposer
pub mod Transport
pub mod Peers
pub mod Evreplica
pub mod Msgpack
pub mod Pack
mod Tests
