-- ===== src/Cluster/Invariant.antt =====
-- What holds of the replicated state between two proposals.
use edge_orchestrator.Common.{
  ◌≡◌, refl, true, false, some, List, [], ◌∷◌, ◌++◌, inl, inr, arith, contains, contains-append,
  position, remove_at, remove_at-IsDistinct, IsDistinct, get_or_default, Bool-cases, Option-cases,
  nat_eq,
}
use edge_orchestrator.Common.HashMap
use edge_orchestrator.Types.{NodeId, Role, role_eq, NodeDescriptor}
use edge_orchestrator.Cluster.{
  ClusterState, Proposal, register_node, deregister_node, assign_role, revoke_role, default, apply,
}

pub record IsWellFormed (s : ClusterState) : Type 0 where
  pub unique_nodes : HashMap.IsUnique s.nodes
  pub unique_assignments : HashMap.IsUnique s.role_assignments
  -- a descriptor stands under its own id
  pub keyed : (n : NodeId) (d : NodeDescriptor) → HashMap.get n s.nodes ≡ some d → d.node_id ≡ n
  -- only known nodes have roles
  pub registered :
      (n : NodeId)
      → HashMap.contains_key n s.role_assignments ≡ true
      → HashMap.contains_key n s.nodes ≡ true
  -- no node has a role twice
  pub distinct :
      (n : NodeId) (roles : List Role)
      → HashMap.get n s.role_assignments ≡ some roles
      → IsDistinct roles

pub default-IsWellFormed : IsWellFormed default
unfolding HashMap.get HashMap.contains_key
default-IsWellFormed = record {
  unique_nodes = tt;
  unique_assignments = tt;
  keyed = λ n d h. cc;
  registered = λ n h. cc;
  distinct = λ n roles h. cc;
}

IsDistinct-snoc :
    (r : Role) (roles : List Role)
    → contains r roles ≡ false
    → IsDistinct roles
    → IsDistinct (roles ++ r ∷ [])
unfolding contains
IsDistinct-snoc r [] h d = (refl, tt)
IsDistinct-snoc r (x ∷ roles) h d =
    (ground (arith, contains-append x roles (r ∷ [])), IsDistinct-snoc r roles (ground arith) d.1)

module _ (s : ClusterState) (w : IsWellFormed s) (n : NodeId) where
  assigned-IsDistinct : IsDistinct (get_or_default (HashMap.get n s.role_assignments))
  assigned-IsDistinct = elim (Option-cases (HashMap.get n s.role_assignments)) [
    | inl e ↦ rw e tt
    | inr (roles, e) ↦ rw e (w.distinct n roles e)
  ]

  -- A known node may be given any list of distinct roles.
  set_roles-IsWellFormed :
      (roles : List Role)
      → HashMap.contains_key n s.nodes ≡ true
      → IsDistinct roles
      → IsWellFormed (record s { role_assignments = HashMap.insert n roles s.role_assignments })
  set_roles-IsWellFormed roles known d = record {
    unique_nodes = w.unique_nodes;
    unique_assignments = HashMap.insert-IsUnique n roles s.role_assignments w.unique_assignments;
    keyed = w.keyed;
    registered = λ j h.
        ground (arith, HashMap.contains_key-insert n j roles s.role_assignments, w.registered j);
    distinct =
        λ j rs h. ground (arith, HashMap.get-insert n j roles s.role_assignments, w.distinct j rs);
  }

  register_node-IsWellFormed :
      (d : NodeDescriptor)
      → d.node_id ≡ n
      → IsWellFormed (record s { nodes = HashMap.insert n d s.nodes })
  register_node-IsWellFormed d own = record {
    unique_nodes = HashMap.insert-IsUnique n d s.nodes w.unique_nodes;
    unique_assignments = w.unique_assignments;
    keyed = λ j x h. ground (arith, HashMap.get-insert n j d s.nodes, w.keyed j x);
    registered = λ j h. ground (arith, HashMap.contains_key-insert n j d s.nodes, w.registered j);
    distinct = w.distinct;
  }

  deregister_node-IsWellFormed : IsWellFormed (apply s (deregister_node n)).0
  unfolding apply
  deregister_node-IsWellFormed = record {
    unique_nodes = HashMap.remove-IsUnique n s.nodes w.unique_nodes;
    unique_assignments = HashMap.remove-IsUnique n s.role_assignments w.unique_assignments;
    keyed = λ j x h. ground (arith, HashMap.get-remove n j s.nodes, w.keyed j x);
    registered = λ j h. ground (
      arith,
      HashMap.contains_key-remove n j s.nodes,
      HashMap.contains_key-remove n j s.role_assignments,
      w.registered j,
    );
    distinct = λ j rs h. ground (arith, HashMap.get-remove n j s.role_assignments, w.distinct j rs);
  }

  assign_role-IsWellFormed : (r : Role) → IsWellFormed (apply s (assign_role n r)).0
  unfolding apply
  assign_role-IsWellFormed r = elim (Bool-cases (HashMap.contains_key n s.nodes)) [
    | inl known ↦ rw known (elim (Bool-cases (contains r roles)) [
      | inl held ↦ rw held (set_roles-IsWellFormed roles known assigned-IsDistinct)
      | inr new ↦ rw new (
          set_roles-IsWellFormed (roles ++ r ∷ []) known
            (IsDistinct-snoc r roles new assigned-IsDistinct))
    ])
    | inr unknown ↦ rw unknown w
  ]
    where
      roles : List Role
      roles = get_or_default (HashMap.get n s.role_assignments)

  revoke_role-IsWellFormed : (r : Role) → IsWellFormed (apply s (revoke_role n r)).0
  unfolding apply
  revoke_role-IsWellFormed r = elim (Option-cases (HashMap.get n s.role_assignments)) [
    | inl e ↦ rw (e, apply) w
    | inr (roles, e) ↦
        rw (e, apply)
          (elim (Option-cases (position r roles)) [
            | inl absent ↦ rw absent w
            | inr (pos, found) ↦ rw found (
                set_roles-IsWellFormed (remove_at pos roles)
                  (w.registered n
                    (ground (arith, HashMap.contains_key_iff_get n s.role_assignments)))
                  (remove_at-IsDistinct roles pos (w.distinct n roles e)))
          ])
  ]

-- Every proposal keeps the state well formed.
pub apply-IsWellFormed :
    (s : ClusterState) (p : Proposal) → IsWellFormed s → IsWellFormed (apply s p).0
unfolding apply
apply-IsWellFormed s (register_node d) w =
    elim (Bool-cases (HashMap.contains_key d.node_id s.nodes)) [
      | inl known ↦ rw known (register_node-IsWellFormed s w d.node_id d refl)
      | inr new ↦ rw new (register_node-IsWellFormed s w d.node_id d refl)
    ]
apply-IsWellFormed s (deregister_node n) w = deregister_node-IsWellFormed s w n
apply-IsWellFormed s (assign_role n r) w = assign_role-IsWellFormed s w n r
apply-IsWellFormed s (revoke_role n r) w = revoke_role-IsWellFormed s w n r
