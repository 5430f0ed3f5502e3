-- ===== src/Cluster/View.antt =====
-- The abstract view of the replicated state: a registry, and a relation of nodes and roles. The
-- tables of `ClusterState` implement it, whatever the order of their entries.
use edge_orchestrator.Common.{
  ◌≡◌, refl, ap, ◌∙◌, Bool, true, false, ◌&&◌, ◌||◌, not, Option, none, some, List, [], ◌∷◌, ◌++◌,
  inl, inr, arith, contains, contains-append, position, remove_at, position-contains,
  contains_of_position, contains-remove_at, get_or_default, Option-cases, nat_eq, ℕ_discrete,
  if◌then◌else◌,
}
use edge_orchestrator.Common.HashMap
use edge_orchestrator.Types.{NodeId, Role, role_eq, Role-discrete, NodeDescriptor}
use edge_orchestrator.Cluster.{
  ClusterState, Proposal, register_node, deregister_node, assign_role, revoke_role, apply,
  ApplyResult, ok, node_registered, node_deregistered, role_assigned, role_revoked, rejected,
}
use edge_orchestrator.Cluster.Invariant.{IsWellFormed, apply-IsWellFormed}

abbrev pub is_some {ℓ} : {A : Type ℓ} → Option A → Bool
is_some none = false
is_some (some _) = true

abbrev pub same_node : NodeId → NodeId → Bool
same_node n j = elim (ℕ_discrete n j) [ yes _ ↦ true | no _ ↦ false ]

abbrev pub same_role : Role → Role → Bool
same_role r q = elim (Role-discrete r q) [ yes _ ↦ true | no _ ↦ false ]

-- A node and a role, related or not, whatever tables hold them.
pub record Relation : Type 0 where
  pub registry : NodeId → Option NodeDescriptor
  pub holds : NodeId → Role → Bool

abbrev pub known : Relation → NodeId → Bool
known v n = is_some (v.registry n)

-- What a proposal means: registration touches the registry, a departure takes the node's roles
-- with it, and roles are given to known nodes only.
unfoldable pub step : Relation → Proposal → Relation
step v (register_node d) = record v {
  registry = λ j. if same_node d.node_id j then some d else v.registry j;
}
step v (deregister_node n) = record {
  registry = λ j. if same_node n j then none else v.registry j;
  holds = λ j q. not (same_node n j) && v.holds j q;
}
step v (assign_role n r) = record v {
  holds = λ j q. known v n && same_node n j && same_role r q || v.holds j q;
}
step v (revoke_role n r) = record v {
  holds = λ j q. not (same_node n j && same_role r q) && v.holds j q;
}

-- What a proposal reports.
unfoldable pub answer : Relation → Proposal → ApplyResult
answer v (register_node d) = if known v d.node_id then ok else node_registered d.node_id
answer v (deregister_node n) = node_deregistered n
answer v (assign_role n r) =
    if known v n then (if v.holds n r then ok else role_assigned n r) else rejected n
answer v (revoke_role n r) = if v.holds n r then role_revoked n r else ok

abbrev pub roles_of : ClusterState → NodeId → List Role
roles_of s n = get_or_default (HashMap.get n s.role_assignments)

unfoldable pub view : ClusterState → Relation
view s = record { registry = λ n. HashMap.get n s.nodes; holds = λ n r. contains r (roles_of s n) }

pub Relation-path :
    {v w : Relation}
    → ((n : NodeId) → v.registry n ≡ w.registry n)
    → ((n : NodeId) (r : Role) → v.holds n r ≡ w.holds n r)
    → v ≡ w
Relation-path p q = λ i. record { registry = λ n. p n i; holds = λ n r. q n r i }

module _ (s : ClusterState) (w : IsWellFormed s) where
  view-register_node :
      (d : NodeDescriptor) → view (apply s (register_node d)).0 ≡ step (view s) (register_node d)
  unfolding view apply step
  view-register_node d =
      Relation-path (λ j. ground (arith, HashMap.get-insert d.node_id j d s.nodes))
        (λ j q. ground arith)

  view-deregister_node :
      (n : NodeId) → view (apply s (deregister_node n)).0 ≡ step (view s) (deregister_node n)
  unfolding view apply step contains
  view-deregister_node n =
      Relation-path (λ j. ground (arith, HashMap.get-remove n j s.nodes))
        (λ j q. ground (arith, HashMap.get-remove n j s.role_assignments))

  holds-assign_role :
      (n j : NodeId) (r q : Role)
      → (view (apply s (assign_role n r)).0).holds j q ≡ (step (view s) (assign_role n r)).holds j q
  unfolding view apply step contains
  holds-assign_role n j r q = ground (
    arith,
    HashMap.contains_key_iff_get n s.nodes,
    HashMap.get-insert n j (roles_of s n) s.role_assignments,
    HashMap.get-insert n j (roles_of s n ++ r ∷ []) s.role_assignments,
    contains-append q (roles_of s n) (r ∷ []),
  )

  view-assign_role :
      (n : NodeId) (r : Role) → view (apply s (assign_role n r)).0 ≡ step (view s) (assign_role n r)
  unfolding view apply step
  view-assign_role n r = Relation-path (λ j. ground arith) (λ j q. holds-assign_role n j r q)

  holds-revoke_role :
      (n j : NodeId) (r q : Role)
      → (view (apply s (revoke_role n r)).0).holds j q ≡ (step (view s) (revoke_role n r)).holds j q
  unfolding view apply step contains
  holds-revoke_role n j r q = elim (Option-cases (HashMap.get n s.role_assignments)) [
    | inl e ↦ ground arith
    | inr (roles, e) ↦ elim (Option-cases (position r roles)) [
      | inl absent ↦ ground (arith, position-contains r roles)
      | inr (pos, found) ↦ ground (
        arith,
        HashMap.get-insert n j (remove_at pos roles) s.role_assignments,
        contains-remove_at r q roles found (w.distinct n roles e),
      )
    ]
  ]

  view-revoke_role :
      (n : NodeId) (r : Role) → view (apply s (revoke_role n r)).0 ≡ step (view s) (revoke_role n r)
  unfolding view apply step
  view-revoke_role n r = Relation-path (λ j. ground arith) (λ j q. holds-revoke_role n j r q)

  answer-apply : (p : Proposal) → (apply s p).1 ≡ answer (view s) p
  unfolding view apply answer contains
  answer-apply (register_node d) = ground (arith, HashMap.contains_key_iff_get d.node_id s.nodes)
  answer-apply (deregister_node n) = refl
  answer-apply (assign_role n r) = ground (arith, HashMap.contains_key_iff_get n s.nodes)
  answer-apply (revoke_role n r) = elim (Option-cases (HashMap.get n s.role_assignments)) [
    | inl e ↦ ground arith
    | inr (roles, e) ↦ elim (Option-cases (position r roles)) [
      | inl absent ↦ ground (arith, position-contains r roles)
      | inr (pos, found) ↦ ground (arith, contains_of_position r roles found)
    ]
  ]

  -- From a well-formed state, applying a proposal to the tables is the abstract step on the
  -- relation, and the result that `apply` returns is the abstract answer.
  pub apply-refines :
      (p : Proposal) → (view (apply s p).0 ≡ step (view s) p) × ((apply s p).1 ≡ answer (view s) p)
  apply-refines (register_node d) = (view-register_node d, answer-apply (register_node d))
  apply-refines (deregister_node n) = (view-deregister_node n, answer-apply (deregister_node n))
  apply-refines (assign_role n r) = (view-assign_role n r, answer-apply (assign_role n r))
  apply-refines (revoke_role n r) = (view-revoke_role n r, answer-apply (revoke_role n r))

-- A sequence of proposals, applied in order.
abbrev pub run : ClusterState → List Proposal → ClusterState
run s [] = s
run s (p ∷ ps) = run (apply s p).0 ps

abbrev pub steps : Relation → List Proposal → Relation
steps v [] = v
steps v (p ∷ ps) = steps (step v p) ps

pub steps-append :
    (v : Relation) (ps qs : List Proposal) → steps v (ps ++ qs) ≡ steps (steps v ps) qs
steps-append v [] qs = refl
steps-append v (p ∷ ps) qs = steps-append (step v p) ps qs

pub run-IsWellFormed :
    (s : ClusterState) (ps : List Proposal) → IsWellFormed s → IsWellFormed (run s ps)
run-IsWellFormed s [] w = w
run-IsWellFormed s (p ∷ ps) w = run-IsWellFormed (apply s p).0 ps (apply-IsWellFormed s p w)

-- A run of proposals from a well-formed state is the run of the abstract steps.
pub view-run :
    (s : ClusterState) (ps : List Proposal) → IsWellFormed s → view (run s ps) ≡ steps (view s) ps
view-run s [] w = refl
view-run s (p ∷ ps) w =
    view-run (apply s p).0 ps (apply-IsWellFormed s p w)
    ∙ ap (λ v. steps v ps) (apply-refines s w p).0
