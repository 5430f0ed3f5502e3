-- ===== src/Config.antt =====
-- crates/node/src/config.rs: the configuration file, its defaults, its checks, and the descriptor and
-- the sandbox policy that it leads to. The YAML parser gives the fields that are there; UUIDs,
-- multiaddresses, the platform and the clock are arguments.
pub mod Defaults
use edge_orchestrator.Common.{
  ℕ, Bool, true, false, ◌&&◌, ◌||◌, Option, none, some, List, [], ◌∷◌, Bytes, codes, if◌then◌else◌,
}
use edge_orchestrator.Common.Text.{is_one_of}
use edge_orchestrator.Types.{
  NodeId, NodeType, heavy, light, OsType, Role, storage, execution, inference, coordinator,
  bootstrap, Capabilities, NodeDescriptor,
}
use edge_orchestrator.Raft.Storage.Interfaces.{Result, ok, err}
use edge_orchestrator.Sandbox.{min, max_pool_target}
use edge_orchestrator.Sandbox.Policy.{VmMode, reuse, ImageTemplate, parse, from_config}

pub record CapabilitiesConfig : Type 0 where
  pub storage : Bool
  pub gpu_acceleration : Bool
  pub runtimes : List Bytes
  pub max_memory_mb : ℕ
  pub cpu_cores : ℕ
  pub project_sandbox : Bool
  pub project_vm_mode : Bytes
  pub project_vm_pool_size : ℕ
  pub project_image_source : Option Bytes
  pub project_image_digest : Option Bytes

-- `Default for CapabilitiesConfig`, where the whole section is missing
abbrev pub default_capabilities : CapabilitiesConfig
default_capabilities = record {
  storage = true;
  gpu_acceleration = false;
  runtimes = codes "qlean" ∷ [];
  max_memory_mb = 16384;
  cpu_cores = 4;
  project_sandbox = false;
  project_vm_mode = codes "reuse";
  project_vm_pool_size = 1;
  project_image_source = none;
  project_image_digest = none;
}

-- the fields of the section that are there
pub record RawCapabilities : Type 0 where
  pub storage : Option Bool
  pub gpu_acceleration : Option Bool
  pub runtimes : Option (List Bytes)
  pub max_memory_mb : Option ℕ
  pub cpu_cores : Option ℕ
  pub project_sandbox : Option Bool
  pub project_vm_mode : Option Bytes
  pub project_vm_pool_size : Option ℕ
  pub project_image_source : Option Bytes
  pub project_image_digest : Option Bytes

abbrev pub unwrap_or {ℓ} : {A : Type ℓ} → Option A → A → A
unwrap_or none d = d
unwrap_or (some a) d = a

-- The defaults of the fields: a missing `storage` is false.
unfoldable pub with_defaults : RawCapabilities → CapabilitiesConfig
with_defaults r = record {
  storage = unwrap_or r.storage false;
  gpu_acceleration = unwrap_or r.gpu_acceleration false;
  runtimes = unwrap_or r.runtimes (codes "qlean" ∷ []);
  max_memory_mb = unwrap_or r.max_memory_mb 16384;
  cpu_cores = unwrap_or r.cpu_cores 4;
  project_sandbox = unwrap_or r.project_sandbox false;
  project_vm_mode = unwrap_or r.project_vm_mode (codes "reuse");
  project_vm_pool_size = unwrap_or r.project_vm_pool_size 1;
  project_image_source = r.project_image_source;
  project_image_digest = r.project_image_digest;
}

abbrev pub section : Option RawCapabilities → CapabilitiesConfig
section none = default_capabilities
section (some r) = with_defaults r

pub record NodeConfig : Type 0 where
  pub node_id : Bytes
  pub node_type : Bytes
  pub listen_addresses : List Bytes
  pub bootstrap_peers : List Bytes
  pub capabilities : CapabilitiesConfig
  pub roles : List Bytes
  pub raft_id : Option ℕ
  pub raft_peers : List ℕ
  pub identity_seed : Option Bytes

-- `NodeConfig` as it is parsed, before its defaults
pub record RawConfig : Type 0 where
  pub node_id : Option Bytes
  pub node_type : Option Bytes
  pub listen_addresses : Option (List Bytes)
  pub bootstrap_peers : Option (List Bytes)
  pub capabilities : Option RawCapabilities
  pub roles : Option (List Bytes)
  pub raft_id : Option ℕ
  pub raft_peers : Option (List ℕ)
  pub identity_seed : Option Bytes

unfoldable pub config_of : RawConfig → NodeConfig
unfolding with_defaults
config_of r = record {
  node_id = unwrap_or r.node_id [];
  node_type = unwrap_or r.node_type (codes "Heavy");
  listen_addresses = unwrap_or r.listen_addresses (codes "/ip4/0.0.0.0/tcp/0" ∷ []);
  bootstrap_peers = unwrap_or r.bootstrap_peers [];
  capabilities = section r.capabilities;
  roles = unwrap_or r.roles [];
  raft_id = r.raft_id;
  raft_peers = unwrap_or r.raft_peers [];
  identity_seed = r.identity_seed;
}

-- the strings of the two `match`es on a role
unfoldable pub parse_role : Bytes → Option Role
parse_role r =
    if is_one_of r (codes "Storage" ∷ [])
    then some storage
    else if is_one_of r (codes "Execution" ∷ [])
    then some execution
    else if is_one_of r (codes "Inference" ∷ [])
    then some inference
    else if is_one_of r (codes "Coordinator" ∷ [])
    then some coordinator
    else if is_one_of r (codes "Bootstrap" ∷ [])
    then some bootstrap
    else none

abbrev pub push_some : Option Role → List Role → List Role
push_some none rs = rs
push_some (some r) rs = r ∷ rs

-- `filter_map`: an unknown role is dropped
unfoldable pub parse_roles : List Bytes → List Role
unfolding parse_role
parse_roles [] = []
parse_roles (r ∷ rs) = push_some (parse_role r) (parse_roles rs)

abbrev pub is_some {ℓ} : {A : Type ℓ} → Option A → Bool
is_some none = false
is_some (some a) = true

module _ (parse_uuid : Bytes → Option NodeId) (parse_multiaddr : Bytes → Option Bytes) where
  pub id_is_valid : Bytes → Bool
  id_is_valid [] = true
  id_is_valid (c ∷ s) = is_some (parse_uuid (c ∷ s))

  pub addresses_are_valid : List Bytes → Bool
  addresses_are_valid [] = true
  addresses_are_valid (a ∷ as') = is_some (parse_multiaddr a) && addresses_are_valid as'

  unfoldable pub validate : NodeConfig → Bool
  unfolding id_is_valid addresses_are_valid
  validate c =
      id_is_valid c.node_id
      && is_one_of c.node_type (codes "Heavy" ∷ codes "Light" ∷ [])
      && addresses_are_valid c.listen_addresses

  abbrev pub checked : NodeConfig → Option NodeConfig
  checked c = if validate c then some c else none

  -- `load`, of what the file was parsed to; `none` is an error
  pub load : Option RawConfig → Option NodeConfig
  unfolding validate config_of
  load none = none
  load (some r) = checked (config_of r)

  -- the id that is configured, or else a new one
  abbrev pub node_id_of : NodeId → Bytes → NodeId
  node_id_of fresh [] = fresh
  node_id_of fresh (c ∷ s) = unwrap_or (parse_uuid (c ∷ s)) fresh

  unfoldable pub to_descriptor : NodeId → OsType → ℕ → NodeConfig → NodeDescriptor
  unfolding parse_roles
  to_descriptor fresh os now c = record {
    node_id = node_id_of fresh c.node_id;
    node_type = if is_one_of c.node_type (codes "Light" ∷ []) then light else heavy;
    os = os;
    capabilities = record {
      storage = c.capabilities.storage;
      gpu_acceleration = c.capabilities.gpu_acceleration;
      runtimes = c.capabilities.runtimes;
      max_memory_mb = c.capabilities.max_memory_mb;
      cpu_cores = c.capabilities.cpu_cores;
      project_sandbox = c.capabilities.project_sandbox;
    };
    advertised_addresses = [];
    current_assigned_roles = parse_roles c.roles;
    started_at = now;
    raft_id = c.raft_id;
  }

-- the error's text is left out
abbrev pub project_image_template : NodeConfig → Result (Option ImageTemplate)
project_image_template c =
    from_config c.capabilities.project_image_source c.capabilities.project_image_digest

abbrev pub project_vm_pool_size : NodeConfig → ℕ
project_vm_pool_size c = min c.capabilities.project_vm_pool_size max_pool_target

abbrev pub with_mode : Option Bytes → CapabilitiesConfig → CapabilitiesConfig
with_mode none c = c
with_mode (some m) c = record c { project_vm_mode = m }

abbrev pub with_pool_size : Option ℕ → CapabilitiesConfig → CapabilitiesConfig
with_pool_size none c = c
with_pool_size (some n) c = record c { project_vm_pool_size = n }

unfoldable pub apply_sandbox_overrides : NodeConfig → Option Bytes → Option ℕ → NodeConfig
apply_sandbox_overrides c vm_mode pool_size = record c {
  capabilities = with_pool_size pool_size (with_mode vm_mode c.capabilities);
}

abbrev pub or_reuse : Result VmMode → VmMode
or_reuse (ok m) = m
or_reuse (err e) = reuse

-- a mode that cannot be read falls back to reuse
unfoldable pub project_vm_mode : NodeConfig → VmMode
project_vm_mode c = or_reuse (parse c.capabilities.project_vm_mode)

abbrev pub project_sandbox_policy : NodeConfig → Bool × VmMode
project_sandbox_policy c = (c.capabilities.project_sandbox, project_vm_mode c)
