-- ===== src/Tests.antt =====
-- Runs of the definitions on concrete inputs, and the theorems applied at such inputs.
pub mod Samples
pub mod Stores
pub mod Channels
mod P2p
mod Raft
mod RoleEngine
mod Runtime
mod Storage
mod Trees
mod Cluster
mod Projects
mod Fetches
mod Swarm
mod Machines
mod Packs
mod Agents
