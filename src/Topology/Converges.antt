-- ===== src/Topology/Converges.antt =====
-- What the proposals of `diff_topology` do to the cluster, by the abstract steps.
use edge_orchestrator.Common.{
  ◌≡◌, refl, ap, false, not, ◌&&◌, ◌||◌, List, [], ◌∷◌, arith, contains, nat_eq, ◌∙◌, inl, inr,
  Bool-cases, Option,
}
use edge_orchestrator.Common.HashMap
use edge_orchestrator.Common.HashMap.{HashMap}
use edge_orchestrator.Types.{NodeId, Role, role_eq, NodeDescriptor}
use edge_orchestrator.Cluster.{ClusterState, assign_role, revoke_role}
use edge_orchestrator.Cluster.Invariant.{IsWellFormed}
use edge_orchestrator.Cluster.View.{
  Relation, known, same_node, step, steps, steps-append, view, view-run, run,
}
use edge_orchestrator.Topology.{
  ClusterTopologySpec, desired_roles, propose_missing, assign_missing, revoke_extra, diff_topology,
}
use edge_orchestrator.Topology.Desired.{
  wants, roles_at, desired_roles-IsUnique, contains-desired_roles,
}

module _ (n : NodeId) (have : List Role) where
  registry-assign :
      (v : Relation) (roles : List Role)
      → (steps v (propose_missing (assign_role n) have roles)).registry ≡ v.registry
  unfolding propose_missing step
  registry-assign v [] = refl
  registry-assign v (r ∷ roles) = elim (Bool-cases (contains r have)) [
    | inl there ↦ rw there (registry-assign v roles)
    | inr missing ↦ rw missing (registry-assign (step v (assign_role n r)) roles)
  ]

  registry-revoke :
      (v : Relation) (roles : List Role)
      → (steps v (propose_missing (revoke_role n) have roles)).registry ≡ v.registry
  unfolding propose_missing step
  registry-revoke v [] = refl
  registry-revoke v (r ∷ roles) = elim (Bool-cases (contains r have)) [
    | inl there ↦ rw there (registry-revoke v roles)
    | inr extra ↦ rw extra (registry-revoke (step v (revoke_role n r)) roles)
  ]

  -- the roles of one node that are asked for and missing
  holds-assign :
      (v : Relation) (roles : List Role) (j : NodeId) (q : Role)
      → (steps v (propose_missing (assign_role n) have roles)).holds j q
        ≡ (v.holds j q || known v n && same_node n j && contains q roles && not (contains q have))
  unfolding propose_missing contains step
  holds-assign v [] j q = ground arith
  holds-assign v (r ∷ roles) j q = elim (Bool-cases (contains r have)) [
    | inl there ↦ rw there (holds-assign v roles j q ∙ ground arith)
    | inr missing ↦ rw missing (holds-assign (step v (assign_role n r)) roles j q ∙ ground arith)
  ]

  -- the roles of one node that it has and that nothing asks for
  holds-revoke :
      (v : Relation) (roles : List Role) (j : NodeId) (q : Role)
      → (steps v (propose_missing (revoke_role n) have roles)).holds j q
        ≡ (v.holds j q && not (same_node n j && contains q roles && not (contains q have)))
  unfolding propose_missing contains step
  holds-revoke v [] j q = ground arith
  holds-revoke v (r ∷ roles) j q = elim (Bool-cases (contains r have)) [
    | inl there ↦ rw there (holds-revoke v roles j q ∙ ground arith)
    | inr extra ↦ rw extra (holds-revoke (step v (revoke_role n r)) roles j q ∙ ground arith)
  ]

module _ (have : HashMap NodeId (List Role)) where
  registry-assign_missing :
      (v : Relation) (m : HashMap NodeId (List Role))
      → (steps v (assign_missing have m)).registry ≡ v.registry
  unfolding assign_missing
  registry-assign_missing v [] = refl
  registry-assign_missing v ((n, roles) ∷ m) = rw steps-append (
      registry-assign_missing (steps v (propose_missing (assign_role n) (roles_at n have) roles)) m
      ∙ registry-assign n (roles_at n have) v roles)

  registry-revoke_extra :
      (v : Relation) (m : HashMap NodeId (List Role))
      → (steps v (revoke_extra have m)).registry ≡ v.registry
  unfolding revoke_extra
  registry-revoke_extra v [] = refl
  registry-revoke_extra v ((n, roles) ∷ m) = rw steps-append (
      registry-revoke_extra (steps v (propose_missing (revoke_role n) (roles_at n have) roles)) m
      ∙ registry-revoke n (roles_at n have) v roles)

  -- the first pass, over a table with one entry for each node
  holds-assign_missing :
      (v : Relation) (m : HashMap NodeId (List Role)) (j : NodeId) (q : Role)
      → HashMap.IsUnique m
      → (steps v (assign_missing have m)).holds j q ≡ (
          v.holds j q
          || known v j && contains q (roles_at j m) && not (contains q (roles_at j have)))
  unfolding assign_missing contains HashMap.get
  holds-assign_missing v [] j q u = ground arith
  holds-assign_missing v ((n, roles) ∷ m) j q u =
      let v' : Relation = steps v (propose_missing (assign_role n) (roles_at n have) roles) in
      rw steps-append (
        holds-assign_missing v' m j q u.1
        ∙ ground (
          arith,
          ap (λ (f : NodeId → Option NodeDescriptor). f j)
              (registry-assign n (roles_at n have) v roles),
          holds-assign n (roles_at n have) v roles j q,
          HashMap.contains_key_iff_get n m,
          u.0,
        ))

  -- the second pass
  holds-revoke_extra :
      (v : Relation) (m : HashMap NodeId (List Role)) (j : NodeId) (q : Role)
      → HashMap.IsUnique m
      → (steps v (revoke_extra have m)).holds j q
        ≡ (v.holds j q && not (contains q (roles_at j m) && not (contains q (roles_at j have))))
  unfolding revoke_extra contains HashMap.get
  holds-revoke_extra v [] j q u = ground arith
  holds-revoke_extra v ((n, roles) ∷ m) j q u =
      let v' : Relation = steps v (propose_missing (revoke_role n) (roles_at n have) roles) in
      rw steps-append (
        holds-revoke_extra v' m j q u.1
        ∙ ground (
          arith,
          holds-revoke n (roles_at n have) v roles j q,
          HashMap.contains_key_iff_get n m,
          u.0,
        ))

module _ (s : ClusterState) (spec : ClusterTopologySpec) (w : IsWellFormed s) where
  desired : HashMap NodeId (List Role)
  desired = desired_roles [] spec.assignments

  after_assign : Relation
  after_assign = steps (view s) (assign_missing s.role_assignments desired)

  view-run-diff_topology :
      view (run s (diff_topology s.role_assignments spec))
      ≡ steps after_assign (revoke_extra desired s.role_assignments)
  unfolding diff_topology after_assign desired
  view-run-diff_topology =
      view-run s (diff_topology s.role_assignments spec) w
      ∙ steps-append (view s) (assign_missing s.role_assignments desired)
          (revoke_extra desired s.role_assignments)

  -- an unknown node has no roles
  unknown-holds :
      (n : NodeId) (r : Role)
      → known (view s) n ≡ false
      → contains r (roles_at n s.role_assignments) ≡ false
  unfolding view contains
  unknown-holds n r h = ground (
    arith,
    w.registered n,
    HashMap.contains_key_iff_get n s.nodes,
    HashMap.contains_key_iff_get n s.role_assignments,
  )

  holds-after :
      (n : NodeId) (r : Role)
      → (steps after_assign (revoke_extra desired s.role_assignments)).holds n r
        ≡ (known (view s) n && wants spec.assignments n r)
  unfolding after_assign desired view
  holds-after n r =
      holds-revoke_extra desired after_assign s.role_assignments n r w.unique_assignments
      ∙ ground (
        arith,
        holds-assign_missing s.role_assignments (view s) desired n r
            (desired_roles-IsUnique [] spec.assignments tt),
        contains-desired_roles n r spec.assignments,
        unknown-holds n r,
      )

  -- Applying the proposals of `diff_topology`, computed from the role assignments of the same
  -- well-formed replicated state that they are applied to, makes every known node hold exactly the
  -- roles of the assignments whose selector gives that node's id, and leaves the registry of nodes as
  -- it was; an assignment whose selector gives no id asks for nothing, whatever capabilities or
  -- operating system it names. An unknown node holds nothing.
  pub diff_topology-converges :
      ((n : NodeId) (r : Role)
        → (view (run s (diff_topology s.role_assignments spec))).holds n r
          ≡ (known (view s) n && wants spec.assignments n r))
      × ((view (run s (diff_topology s.role_assignments spec))).registry ≡ (view s).registry)
  unfolding after_assign
  diff_topology-converges = (
    λ n r. ap (λ (v : Relation). v.holds n r) view-run-diff_topology ∙ holds-after n r,
    ap (λ (v : Relation). v.registry) view-run-diff_topology
        ∙ registry-revoke_extra desired after_assign s.role_assignments
        ∙ registry-assign_missing s.role_assignments (view s) desired,
  )
