-- ===== src/Lib.antt =====
-- AiFS: a control plane for inference workers on a key-value store that Raft replicates.
--
-- The program. A user's chat request goes to the gateway (gateway), which asks the controller
-- for a worker and forwards the prompt to it; the worker (worker) queues it for its GPUs and
-- their backend. Workers register with the controller (controlplane/controller), which keeps
-- their records in a key-value cluster. The controller reaches the cluster over HTTP by
-- controlplane/kvclient. A server of the cluster (kvraft) puts each command into the log of its
-- Raft peer (raft) and applies the commands that Raft hands over.
--
-- The files.
--   Prelude: shared names, lists over the native numbers, Go maps as association lists (Dict), sums
--     over lists (Sums), a reply over HTTP (Web), and encodings of data as lists of numbers (Texts,
--     Coding), which only the examples use.
--   Raft: raft/raft.go and raft/persister.go. State has the peer's struct and the arithmetic of
--     its log. RequestVote, AppendEntries, Snapshots, Election, Replication and Lifetime have
--     the operations: RPC handlers, the requests that are sent, and what is done with each
--     reply. Steps puts them together to a relation of runs with crashes. Keeps, Valid and its
--     children are about all operations; Durability, Votes, Logs, Commit, Delivery and Stale
--     are about single ones. Cluster puts the peers together with the elections and votes under
--     way; its children are the invariants of that. Network adds the requests for entries under
--     way: Chain and Chains say what a log is made of, Handlers and Orderly what each operation
--     does to it, Turns what each step of a peer does, Logged and Kept have the invariant, and
--     Matching compares logs. Plain is a concrete encoding for the examples.
--   Kvraft: kvraft/common.go, server.go, http.go, client.go and runtime/cluster.go.
--     StateMachine has the four handlers and the record of duplicates; Applier the loop over
--     Raft's messages; Handlers the RPC handlers; Http the HTTP API. Once, Spec, Legal,
--     Replicas, Requests, Channels and HttpIds have their properties, and Agreement joins
--     Raft's logs with Replicas. Clerk is the RPC client, with Retries. Runtime is how a
--     cluster comes up in one process: Wired and Enabled are about the ends of the network,
--     Rise and Shutdown about the servers. Codings has encodings for the examples.
--   Models: models/worker.go and models/chat.go; Kv is models/kv.go.
--   Controlplane: controlplane/kvclient/client.go (KvClient, with Turns; Served joins it with the
--     state machine of the servers), and of controlplane/controller/controller.go the choice of
--     a worker (Scheduling, with Best) and the registry of the workers (Registry, with
--     Registration, and Handlers for its HTTP API). Documents has concrete arguments for the
--     examples.
--   Gateway: gateway/gateway.go. Prompt has the checks of a request, with Latest; Pipeline the two
--     queues and their goroutines as events, with Places, Results, Work and Progress; Calls the
--     calls of the controller and of a worker, and Service what meets them there.
--   Worker: worker/backend.go, worker/pool.go, worker/server.go and cmd/worker/main.go. Backend
--     has the engines; Pool the queue, the calls of Submit and the goroutines of the GPUs as
--     steps, with Owners and Answers; Server the HTTP handler; Launch how a worker comes up,
--     with Enrolment at the controller.
--   Tests under each part: concrete runs.
--
-- How the code corresponds. A Go struct is a record with the fields' names; an RPC handler is a
-- function from the server's state to its new state and the reply. A Go panic is none, and
-- theorems about panics say when the result is none, or that it is not. The lock is held through a definition:
-- where the code releases it there are two definitions, and any other step may come between, or
-- an argument of the definition says what other operations do meanwhile: the client's turn over
-- the servers and the controller's registration, lists and choice have such an argument. Only
-- in handle_command of Kvraft/Applier nothing comes between where the lock is released around
-- rf.Snapshot; without a limit to the size of the state it is not released there.
-- Goroutines and timers are the order of the steps: time is a number that is passed in, and a
-- time-out is a step that may happen at any time. A message that may be lost, late or repeated
-- is an argument of a step that may happen or not; in Cluster only votes are kept track of, and
-- anything else may come; in Network requests for entries are kept track of too, while their
-- replies and snapshots may bring anything. A channel to which messages are sent is the list of
-- the messages handed over; a channel of capacity one is an option.
--
-- Numbers. Terms, indexes, sequence numbers and peers are natural numbers without a bound, where
-- Go has int of 64 bits: none is reached by counting in the life of a cluster. -1 as "none" is
-- an option. The size of a pool and the number of tokens are natural numbers too: Go treats
-- those below 1 alike.
-- Fuel. The loop of sendApplyMsg runs on the number of committed entries that are not applied,
-- which is enough, since a round that does not end the loop applies one. All other loops are
-- structural recursion.
--
-- Parameters. labgob's encoding, with its round trip; fmt.Sprintf; one exchange over HTTP with a
-- server (http.Get, http.Post; doOnce in what is said of the client's turn over the servers);
-- strings.Split, TrimSpace and TrimRight; what a backend answers; float64, as an order with two
-- constants and without NaN; for the controller the cluster as seen by its client (a put that is
-- answered with OK changes no other key; that it is stored is not assumed; Served has such a
-- cluster, made of the models of the client and of the state machine), JSON, and Go's order of a
-- map's keys and sort.Strings.
--
-- Not modelled: the simulated network of labrpc, which Runtime takes as a parameter, labgob itself,
-- porcupine (a copy of a checker), the test harness, logging, and the main functions but that of a
-- worker. That committed entries stay in the logs is not stated.
pub mod Prelude
pub mod Raft
pub mod Kvraft
pub mod Models
pub mod Controlplane
pub mod Gateway
pub mod Worker
