-- ===== src/Lib.antt =====
-- InferSched, a scheduler for distributed inference (C++, under cpp/): the model of its engine core,
-- of its durable control plane and of the gRPC services between them.
--
-- A Router takes requests from Kafka, records them in PostgreSQL and gives each an attempt on an
-- Engine; an Engine runs sequences over a paged key-value cache; a completion is accepted in
-- PostgreSQL and published from an outbox.
--
--   Base         Shared: tests, lists, maps as association lists, std::to_string, thrown errors.
--   Engine       The engine core, cpp/include/infersched/engine and cpp/src.
--     KvCache         PagedKvCache: the free list, reference counts, sequences and pinned prefixes.
--                     std::size_t and std::uint32_t are ℕ, with the reference counts' wrap-around
--                     at 2 ^ 32 written out. Theorems over a history bound the number of sequences,
--                     pinned prefixes and calls below 2 ^ 32.
--       Loops         The loops over blocks.
--       Invariant     What a well-formed cache is.
--       Preserve      Every operation keeps it.
--       Check         CheckInvariants and why it answers true.
--       Accounting    The free blocks are the blocks that nothing holds.
--       Answers       What the operations answer.
--       Roundtrip     Free undoes Allocate.
--       History       Any sequence of calls.
--     ExecutionState  The life cycle of a sequence: CanTransition and the state machine.
--     EngineConfig    The configuration, results, clock and keys that the engines share.
--     Lru             The recency list and the map that the caches share, and their specification,
--                     one list of pairs.
--     ResultCache     ResultCache: Put and Get, refined by a bounded list of pairs.
--     PrefixCache     PrefixCache over the PagedKvCache that it pins its blocks in. The theorems are
--                     about a paged cache in which nothing else pins prefixes.
--                     std::string::size counts bytes, as the length of a text does here.
--       Holds         The entries are the pinned prefixes.
--       Pins          Put, EvictOldest and Clear.
--       Longest       GetLongest.
--     RadixPrefixCache
--                     RadixPrefixCache: the tree of cached blocks, over the PagedKvCache that it pins
--                     its blocks in. A map of children is the sequence of its nodes, a pointer to it
--                     the hashes that lead to it. The loop of evictions has the number of nodes as
--                     its fuel: each turn takes a node out.
--       Nodes         The tree, and GetLongest.
--       Eviction      The answers of EvictOldest.
--       Trees         Size, distinct keys, leaves.
--       Longest       GetLongest and the paths of a tree.
--       Counted       The node count, and the nodes that PutBlockPrefixes adds.
--       Evicted       The leaf that is evicted, and the node count after it.
--       Capacity      PutBlockPrefixes and its loop of evictions.
--       Touched       GetLongest and Clear keep the count right.
--     CostModel       DeterministicCostModel; the random draw is a parameter.
--       Costs         Exact costs, cut at the largest duration, within the jitter.
--     StaticBatchPolicy
--                     StaticBatchPolicy::Select, with an index and its request held together.
--       Admission     Which requests are selected, and why the others are not.
--     RequestQueue    RequestQueue; a std::priority_queue is the list of what it holds.
--       Order         What PopReady takes.
--     ContinuousEngine
--                     ContinuousEngine over all the parts above; the random draw is a parameter.
--       State         Its fields and small members.
--       Admission     The steps of AdmitReady for one candidate. Its loop that evicts and allocates
--                     has as fuel one more than the nodes of the tree.
--       Scan          The loop of AdmitReady: as many turns as there are waiting requests.
--       Decoding      PrepareDecodeBlocks, Preempt, SelectVictim and CompleteFinished. The loop of
--                     PrepareDecodeBlocks has as fuel one more than the active sequences, counting
--                     the passes that start at the index 0; its loop that evicts and appends has one
--                     more than the nodes of the tree.
--       Iterations    RunOneIteration, and RunUntilIdle on fuel that the caller gives.
--       Frames        What the steps of AdmitReady leave alone.
--       Requests      Where the requests are, through AdmitReady.
--       Conserved     Where they are, through any calls.
--       Limits        The limits of a batch.
--       BatchSize     The active sequences, through any calls.
--       Growth        The blocks of the sequences through one pass of PrepareDecodeBlocks.
--       Preparation   What PrepareDecodeBlocks leaves.
--       Fuel          The loops on fuel end by themselves: a flag in what they return tells it.
--       NodeCount     The node count of the tree, through one loop.
--       PrefixNodes   The node count, through any calls.
--       Victims       SelectVictim.
--   Durable      The durable control plane, cpp/include/infersched/durable and cpp/src.
--     Store           DurableStore: Migrate, AcquirePartition, Ingest, AssignAttempt, Transition and
--                     Finalize as functions of the tables. Store/Queries has the other members.
--       Schema        The tables, and the answers' types.
--       Lifecycle     Any sequence of calls, and what one may change.
--       Accepted      What an accepted completion is, and how many there are.
--       Fencing       Older attempts.
--       Epochs        Older owners of a partition.
--       Publication   The outbox row of a completion.
--       Published     Positions that have a published row, or one of given ids.
--     OffsetTracker   ContiguousOffsetTracker. The while loop has the size of the set as its fuel:
--                     each turn takes an offset out of the set.
--       Commits       What is committed after any completions.
--     RequestIngestor RequestIngestor::Handle; the protobuf parser is a parameter.
--       Deliveries    A message delivered several times.
--     OutboxRelay     OutboxRelay::PublishBatch; the publisher is a parameter.
--       Batches       What a batch publishes and marks.
--       Publisher     KafkaOutboxPublisher::Publish; what librdkafka does meanwhile is an argument.
--     KafkaPoller     KafkaPoller, as what its threads do under the mutex; librdkafka's deliveries and
--                     answers are arguments.
--       Sound         What the poller counts on holds of all that it is told is complete.
--       Waits         An offset that it is not told of stays uncommitted.
--     DurableRouter   The main program of the durable router, cpp/src/durable_router_main.cpp.
--       Loop          Its loop, one stage for each transaction, lock or wait.
--       System        Several routers on one store and one consumer group, interleaved.
--       Posted        What a stage does to the outbox.
--       Sound         What a router counts on is published.
--       Committed     What the group has committed is marked as published.
--       Stored        What it has committed, against the delivery reports of Kafka.
--       Held          The messages in a router's hands.
--       Progress      A message is published and completed when nothing interferes.
--       Dropped       What becomes of a message that the loop leaves with continue.
--   Distributed  The processes that talk over gRPC, cpp/include/infersched/distributed and cpp/src.
--     Messages        The messages of proto/infersched.proto.
--     EngineService   EngineService: each critical section of its mutex is a step.
--       State         The fields, and the tests that the handlers make.
--       Flights       Any interleaving of the handlers and the worker.
--       Attempts      Which attempts are accepted.
--       Fences        Older owners, and draining.
--     RouterService   RouterService: each handler runs under its mutex, at the time that the clock
--                     says; a wait is its condition, asked once. engines_.begin() is the first
--                     entry of the list.
--       Leases        The records against one lease for each engine.
--       Answers       What Heartbeat and WaitForEngine answer.
--
-- Each state is a record and each member function a function that takes the state and returns its
-- answer with the new state. A loop over a range is recursion on the list it runs over; std::to_string
-- has fuel n + 1 for n, since a number has fewer digits than n + 1. A member that throws
-- answers so, as a value, and leaves the state as it was. In each component a module Tests applies
-- the theorems to concrete states.
--
-- Not modelled: locks and waits other than as steps; gRPC, Kafka and PostgreSQL themselves (a
-- statement's effect on the tables is modelled; a rebalance and a delivered message are arguments);
-- clocks, other than as the times that they say; metrics; the other programs' entry points and the
-- Python front end, which are input and output; DeterministicEngine, which drives the static batch
-- policy and the caches, each modelled here by itself; and the ring and the registry of
-- cpp/include/infersched/concurrency.
pub mod Base
pub mod Engine
pub mod Durable
pub mod Distributed
