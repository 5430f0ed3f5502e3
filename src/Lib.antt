-- ===== src/Lib.antt =====
-- The edge-cloud orchestrator: nodes of a cluster that share a replicated state by Raft, give each
-- other roles after a topology, store content-addressed objects, exchange messages, and build and run
-- projects for each other in virtual machines.
--
-- The parts, and the files that model them:
--
--   * Types: crates/core/src/types.rs and error.rs, the data that the parts exchange; Types/Project has
--     the tasks, their snapshots and results.
--   * Cluster: crates/node/src/raft/state_machine.rs and proposal.rs. `ClusterState` holds the table
--     of nodes and that of role assignments; `apply` is `ClusterState::apply`. Cluster/Invariant has
--     the well-formedness of the tables, Cluster/View the abstract state: a registry and a relation.
--   * Topology: crates/node/src/orchestration/topology.rs. `diff_topology` computes proposals for
--     the cluster; Topology/Desired says what a specification asks for, Topology/Converges that the
--     proposals bring the cluster there.
--   * Raft: Raft/Node is the part of crates/node/src/raft/node.rs that decodes and applies the committed
--     entries, Raft/Node/Replay follows a log; Raft/Ready is the loop around it: ticks, messages and
--     proposals, and what `process_ready` sends, stores and applies, in its order. Raft/Storage is
--     crates/node/src/raft/storage.rs, `CasRaftStorage`, which keeps the log in an object store behind
--     a cache: Raft/Storage/Reads is what Raft reads of it, Raft/Storage/Log the log that it follows,
--     Raft/Storage/Local the object store of Storage behind its interface. Raft/Network is the registry
--     of crates/node/src/raft/network.rs, which tells a Raft id's peer.
--   * RoleEngine: crates/node/src/orchestration/role_engine.rs. The engine calls `diff_topology` with
--     the roles in its descriptors, which are not the replicated assignments, and sends the proposals; RoleEngine/Failover is about `handle_node_failure`.
--   * Storage: crates/storage/src. Storage/Objects has the texts that are hashed (objects.rs),
--     Storage/Decimal the number in their header, Storage/Store the operations of `LocalObjectStore`
--     (store.rs), one function each; below it, what a write does to the files (Writes), the soundness
--     of a store (Sound, Calls), reading back (RoundTrip) and what goes wrong (Faults).
--     Storage/Diff is diff.rs, the difference of two trees; Storage/Pack is index.rs, packfiles and
--     their index.
--   * P2p: crates/p2p/src. P2p/Framing has the length-prefixed frames, P2p/Protocol the four codecs of
--     protocol.rs, which differ in their messages and limits. P2p/Messages has the commands and events
--     of the swarm, P2p/Swarm the handlers of the four protocols (swarm.rs), P2p/Swarm/Loop the event
--     loop as a state with turns: the parked channels, the running jobs, the queue of their outcomes.
--   * Project: a task's way, in crates/node/src. Project/Snapshot is project_snapshot.rs; Project/Catalog
--     the choice of a peer and Project/Client the rest of project_client.rs; Project/Lifecycle what
--     becomes of a task over a run of submissions and results; Project/Fetch is cas_fetch.rs, with
--     `ensure_blob` cut in two at its wait; Project/Executor is project_executor.rs.
--   * Sandbox: crates/sandbox/src. pool.rs is the policy of the pool of machines; of qlean.rs,
--     Sandbox/Policy has the modes, budgets and exit codes, Sandbox/Guest the phases of a task in a
--     machine, Sandbox/Worker the worker that boots, keeps and discards machines.
--   * Ipc: crates/node/src/ipc. Ipc/Handler is handler.rs, Ipc/Connection one connection of server.rs.
--   * Bootstrap: crates/node/src/bootstrap.rs, the event monitor, which brings the swarm's events to the
--     registry, the fetcher, the project client and the Raft node, and how these share their state.
--   * Config, Reporter and Runtime: crates/node/src/config.rs, orchestration/reporter.rs, and of
--     orchestration/runtime_loop.rs the choice of an executor and a round of the registration loop.
--   * Agent: crates/agent/src/main.rs. Agent/Install has the scripts for the guest, Agent/Plan the
--     planners, Agent/Run the submissions, polls and attempts.
--   * Common: lists, hash maps, channels, integers and texts; Tests: concrete inputs.
--
-- Representation. A `Uuid`, a time and a machine integer are natural numbers, with the wrap-around
-- of the `u32` length prefix written out; indices, sizes and counts are taken to stay below 2 ^ 64,
-- and the rest is only compared. A `String`, a
-- `Vec<u8>` and a `Multiaddr` are their bytes, a number each. A `HashMap` is an association list,
-- whose order stands for the unspecified order of iteration. The messages of errors are left out, save a hash or a node that they name. A function that may panic
-- says so in its result. Locks, tasks and logging are left out: each operation runs alone.
--
-- The libraries are parameters: the JSON of proposals (`Codec`), of objects with zlib (`Format`) and
-- of messages (`Json`), which read back what they wrote; the tokio channel (`Channel`); the cache of
-- the crate lru (`EntryCache`), which may forget any other entry when one is put; the file
-- system (`FileSystem`), which may fail at any call and leave anything in the file that the failed
-- call was on, save that `Path::exists`, which answers false on an error, is taken not to meet one; SHA-256 in hexadecimal (`Digest`), whose collisions are excluded only for the one text
-- that a theorem names; chrono's text of a time (`format_timestamp`); the streams of the futures crate
-- (`Input`, `Output`); the index file's JSON (`IndexFormat`); the requests' JSON, UUIDs and base64
-- (`Params`, `Wire`); tar and temporary directories (`Scratch`); the Raft library (`RawNode`); the
-- virtual machines of the crate qlean (`Host`), each new one unlike those before; the agent's socket
-- and model (`Environment`). Paths that are not hexadecimal, which may alias others, are outside the
-- theorems on the store.
--
-- Concurrency. What the program awaits is a cut: a job of the swarm's loop runs between the turn that
-- spawned it and one that ends it, also after the loop has ended, a fetch between its beginning and its
-- end, and a submission is a send and the later entry of its task; the theorems are about every order
-- of such steps. A job may panic, and then ends without an outcome. A clock is an argument, in
-- nanoseconds.
--
-- Fuel. That of the decimal digits is the number itself and one more, which is enough since each round
-- divides by ten; `read-show_decimal` in Storage/Decimal rests on it. The agent's polls and attempts
-- count down the source's own bounds.
--
-- Not modelled: the transport types of crates/storage/src/transport.rs, which nothing drives; the
-- construction of the libp2p swarm; the checks of the host before the sandbox starts, and the handle
-- that queues a job for its worker; the loop that accepts IPC connections; the start-up that constructs
-- the parts; the command line and signals; the agent's scan of the workspace, settings, curl, prompts
-- and printed texts; the examples. These are calls of the operating system or of libraries.
pub mod Common
pub mod Types
pub mod Cluster
pub mod Topology
pub mod Raft
pub mod RoleEngine
pub mod P2p
pub mod Runtime
pub mod Sandbox
pub mod Storage
pub mod Project
pub mod Ipc
pub mod Bootstrap
pub mod Agent
pub mod Config
pub mod Reporter
mod Tests
