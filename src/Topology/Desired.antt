-- ===== src/Topology/Desired.antt =====
-- The table of desired roles, against a description that reads the specification directly.
use edge_orchestrator.Common.{
  ◌≡◌, Bool, false, ◌&&◌, ◌||◌, none, some, List, [], ◌∷◌, ◌++◌, arith, contains, contains-append,
  get_or_default, if◌then◌else◌, nat_eq, inl, inr, Option-cases, ◌∙◌,
}
use edge_orchestrator.Common.HashMap
use edge_orchestrator.Common.HashMap.{HashMap}
use edge_orchestrator.Types.{NodeId, Role, role_eq}
use edge_orchestrator.Cluster.View.{same_node}
use edge_orchestrator.Topology.{NodeAssignment, push_missing, add_assignment, desired_roles}

-- An assignment selects a node by its id; the other selectors are not consulted.
abbrev pub selects : NodeAssignment → NodeId → Bool
selects a n = elim a.node_selector.node_id [ none ↦ false | some m ↦ same_node m n ]

-- Some assignment selects the node and names the role.
pub wants : List NodeAssignment → NodeId → Role → Bool
wants [] n r = false
wants (a ∷ rest) n r = selects a n && contains r a.roles || wants rest n r

abbrev pub roles_at : NodeId → HashMap NodeId (List Role) → List Role
roles_at n m = get_or_default (HashMap.get n m)

contains-push_missing :
    (r : Role) (entry roles : List Role)
    → contains r (push_missing entry roles) ≡ (contains r entry || contains r roles)
unfolding push_missing contains
contains-push_missing r entry [] = ground arith
contains-push_missing r entry (q ∷ roles) =
    contains-push_missing r (if contains q entry then entry else entry ++ q ∷ []) roles
    ∙ ground (arith, contains-append r entry (q ∷ []))

roles_at-add_assignment :
    (n : NodeId) (r : Role) (m : HashMap NodeId (List Role)) (a : NodeAssignment)
    → contains r (roles_at n (add_assignment m a))
      ≡ (contains r (roles_at n m) || selects a n && contains r a.roles)
unfolding add_assignment
roles_at-add_assignment n r m a = elim (Option-cases a.node_selector.node_id) [
  | inl any ↦ ground arith
  | inr (k, pinned) ↦ ground (
    arith,
    HashMap.get-insert k n (push_missing (roles_at k m) a.roles) m,
    contains-push_missing r (roles_at k m) a.roles,
  )
]

add_assignment-IsUnique :
    (m : HashMap NodeId (List Role)) (a : NodeAssignment)
    → HashMap.IsUnique m
    → HashMap.IsUnique (add_assignment m a)
unfolding add_assignment
add_assignment-IsUnique m a u = elim (Option-cases a.node_selector.node_id) [
  | inl any ↦ rw (any, add_assignment) u
  | inr (k, pinned) ↦
      rw (pinned, add_assignment)
        (HashMap.insert-IsUnique k (push_missing (roles_at k m) a.roles) m u)
]

pub desired_roles-IsUnique :
    (m : HashMap NodeId (List Role)) (as' : List NodeAssignment)
    → HashMap.IsUnique m
    → HashMap.IsUnique (desired_roles m as')
unfolding desired_roles
desired_roles-IsUnique m [] u = u
desired_roles-IsUnique m (a ∷ rest) u =
    desired_roles-IsUnique (add_assignment m a) rest (add_assignment-IsUnique m a u)

roles_at-desired_roles :
    (n : NodeId) (r : Role) (m : HashMap NodeId (List Role)) (as' : List NodeAssignment)
    → contains r (roles_at n (desired_roles m as')) ≡ (contains r (roles_at n m) || wants as' n r)
unfolding desired_roles wants
roles_at-desired_roles n r m [] = ground arith
roles_at-desired_roles n r m (a ∷ rest) =
    roles_at-desired_roles n r (add_assignment m a) rest
    ∙ ground (arith, roles_at-add_assignment n r m a)

-- The table built by the loop lists exactly the roles that some assignment asks for.
pub contains-desired_roles :
    (n : NodeId) (r : Role) (as' : List NodeAssignment)
    → contains r (roles_at n (desired_roles [] as')) ≡ wants as' n r
unfolding HashMap.get contains
contains-desired_roles n r as' = roles_at-desired_roles n r [] as'
