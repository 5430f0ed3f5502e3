-- ===== src/Tests/Samples.antt =====
-- The inputs that the tests share.
use edge_orchestrator.Common.{ℕ, zero, suc, Option, none, some, [], ◌∷◌, ◌≡◌, arith, codes, Bytes}
use edge_orchestrator.Types.{
  NodeDescriptor, heavy, linux, default_capabilities, storage, execution, inference, coordinator,
  bootstrap, Role,
}
use edge_orchestrator.Cluster.{Proposal, register_node, deregister_node, assign_role, revoke_role}
use edge_orchestrator.Raft.Node.{Codec}
use edge_orchestrator.Topology.{ClusterTopologySpec}

abbrev pub node : ℕ → NodeDescriptor
node n = record {
  node_id = n;
  node_type = heavy;
  os = linux;
  capabilities = default_capabilities;
  advertised_addresses = [];
  current_assigned_roles = [];
  started_at = 0;
  raft_id = some n;
}

-- the topology of the tests of topology.rs: one node, one role
abbrev pub one_execution : ClusterTopologySpec
one_execution = record {
  version = codes "1.0";
  assignments =
      record {
        node_selector = record { node_id = some 5; has_capabilities = []; os = none };
        roles = execution ∷ [];
      }
      ∷ [];
}

abbrev pub role_code : Role → ℕ
role_code storage = 0
role_code execution = 1
role_code inference = 2
role_code coordinator = 3
role_code bootstrap = 4

abbrev pub code_role : ℕ → Role
code_role zero = storage
code_role (suc zero) = execution
code_role (suc (suc zero)) = inference
code_role (suc (suc (suc zero))) = coordinator
code_role (suc (suc (suc (suc n)))) = bootstrap

-- A codec in which registrations cannot be written.
abbrev pub small_encode : Proposal → Option Bytes
small_encode (register_node d) = none
small_encode (deregister_node n) = some (0 ∷ n ∷ [])
small_encode (assign_role n r) = some (1 ∷ n ∷ role_code r ∷ [])
small_encode (revoke_role n r) = some (2 ∷ n ∷ role_code r ∷ [])

abbrev pub small_decode : Bytes → Option Proposal
small_decode (zero ∷ n ∷ []) = some (deregister_node n)
small_decode (suc zero ∷ n ∷ r ∷ []) = some (assign_role n (code_role r))
small_decode (suc (suc zero) ∷ n ∷ r ∷ []) = some (revoke_role n (code_role r))
small_decode _ = none

code_role_code : (r : Role) → code_role (role_code r) ≡ r
code_role_code r = ground arith

pub small_reads_back :
    (p : Proposal) (b : Bytes) → small_encode p ≡ some b → small_decode b ≡ some p
small_reads_back (register_node d) b h = cc
small_reads_back (deregister_node n) b h = ground arith
small_reads_back (assign_role n r) b h = ground (arith, code_role_code r)
small_reads_back (revoke_role n r) b h = ground (arith, code_role_code r)

abbrev pub small : Codec
small = record {
  encode = small_encode;
  decode = small_decode;
  decode-encode = small_reads_back;
  encode-ne-nil = λ p b h e. ground arith;
}
