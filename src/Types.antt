-- ===== src/Types.antt =====
-- crates/core/src/types.rs and error.rs: the data that the parts exchange.
-- A `Uuid` is its 128-bit number, a `DateTime<Utc>` a number of nanoseconds; the program only
-- compares them. A `Multiaddr` is the bytes of its text.
pub mod Project
use edge_orchestrator.Common.{ℕ, Bool, true, false, Option, List, [], ◌∷◌, Bytes, Eq, codes}

abbrev pub NodeId : Type 0
NodeId = ℕ

abbrev pub TaskId : Type 0
TaskId = ℕ

-- A hash is the bytes of its hexadecimal text.
abbrev pub Hash : Type 0
Hash = Bytes

pub data NodeType : Type 0 where
  heavy light : NodeType

pub data OsType : Type 0 where
  macos linux windows ios android unknown : OsType

pub data Role : Type 0 where
  storage execution inference coordinator bootstrap : Role

unfoldable pub Role-discrete : Discrete Role
Role-discrete = hlevel

instance abbrev pub role_eq : Eq Role
role_eq = record { dec = Role-discrete }

unfoldable pub NodeType-discrete : Discrete NodeType
NodeType-discrete = hlevel

instance abbrev pub node_type_eq : Eq NodeType
node_type_eq = record { dec = NodeType-discrete }

pub record Capabilities : Type 0 where
  pub storage : Bool
  pub gpu_acceleration : Bool
  pub runtimes : List Bytes
  pub max_memory_mb : ℕ
  pub cpu_cores : ℕ
  pub project_sandbox : Bool

-- `Default for Capabilities`
abbrev pub default_capabilities : Capabilities
default_capabilities = record {
  storage = true;
  gpu_acceleration = false;
  runtimes = codes "qlean" ∷ [];
  max_memory_mb = 1024;
  cpu_cores = 2;
  project_sandbox = false;
}

pub record NodeDescriptor : Type 0 where
  pub node_id : NodeId
  pub node_type : NodeType
  pub os : OsType
  pub capabilities : Capabilities
  pub advertised_addresses : List Bytes
  pub current_assigned_roles : List Role
  pub started_at : ℕ
  pub raft_id : Option ℕ

-- `CoreError`: the variants that the modelled code returns. The text of a message is kept where it is a value of the program, such as a hash.
pub data CoreError : Type 0 where
  network : CoreError
  object_not_found : Hash → CoreError
  hash_mismatch : Hash → CoreError
  storage_io : CoreError
  serialization : CoreError
  configuration : CoreError
  sandbox_execution : CoreError
  unsupported_platform : CoreError
  invalid_state : CoreError
  raft : CoreError
  internal : CoreError
