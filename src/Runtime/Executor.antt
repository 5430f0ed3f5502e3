-- ===== src/Runtime/Executor.antt =====
-- Which executor is picked.
use edge_orchestrator.Common.{
  ℕ, refl, ◌∙◌, ap, sym, ◌≡◌, ◌≢◌, ◌⊎◌, inl, inr, true, false, Option, none, some, [], ◌∷◌,
  contains, nat_eq, arith, All, Option-cases, Bool-cases,
}
use mathlib.Core.List.{Memᴰ}
use edge_orchestrator.Common.HashMap.{HashMap}
use edge_orchestrator.Types.{NodeId, NodeDescriptor, role_eq, execution}
use edge_orchestrator.Cluster.{ClusterState}
use edge_orchestrator.Runtime.{differs, candidate, pick_from, pick_executor}

-- A node that may execute, under this Raft id.
abbrev pub Eligible : Option ℕ → NodeDescriptor → ℕ → Type 0
Eligible exclude d rid =
    (d.raft_id ≡ some rid)
    × (contains execution d.current_assigned_roles ≡ true)
    × (exclude ≢ some rid)

abbrev pub Unfit : Option ℕ → NodeDescriptor → Type 0
Unfit exclude d =
    (d.raft_id ≡ none)
    ⊎ (contains execution d.current_assigned_roles ≡ false)
    ⊎ (d.raft_id ≡ exclude)

abbrev pub Picks : Option ℕ → HashMap NodeId NodeDescriptor → Option ℕ → Type 0
Picks exclude nodes (some rid) =
    (n : NodeId × NodeDescriptor) × Memᴰ n nodes × Eligible exclude n.1 rid
Picks exclude nodes none = All (λ n. Unfit exclude n.1) nodes

differs-ne : (rid : ℕ) (exclude : Option ℕ) → differs rid exclude ≡ true → exclude ≢ some rid
differs-ne rid none e same = absurd (cc)
differs-ne rid (some x) e same = ground (arith, e, same)

differs-eq : (rid : ℕ) (exclude : Option ℕ) → differs rid exclude ≡ false → some rid ≡ exclude
differs-eq rid none e = absurd (cc)
differs-eq rid (some x) e = ground (arith, e)

candidate-Eligible :
    (exclude : Option ℕ) (d : NodeDescriptor) (rid : ℕ)
    → candidate exclude d ≡ some rid
    → Eligible exclude d rid
candidate-Eligible exclude d rid e = elim (Option-cases d.raft_id) [
  | inl no_id ↦ absurd (ground (arith, no_id, e))
  | inr (x, id) ↦ elim (Bool-cases (contains execution d.current_assigned_roles)) [
    | inr no_role ↦ absurd (ground (arith, id, no_role, e))
    | inl role ↦ elim (Bool-cases (differs x exclude)) [
      | inr out ↦ absurd (ground (arith, id, role, out, e))
      | inl kept ↦
          (let same : x ≡ rid = ground (arith, id, role, kept, e) in
            (id ∙ ap some same, role, λ out. differs-ne x exclude kept (out ∙ ap some (sym same))))
    ]
  ]
]

candidate-Unfit :
    (exclude : Option ℕ) (d : NodeDescriptor) → candidate exclude d ≡ none → Unfit exclude d
candidate-Unfit exclude d e = elim (Option-cases d.raft_id) [
  | inl no_id ↦ inl no_id
  | inr (x, id) ↦ elim (Bool-cases (contains execution d.current_assigned_roles)) [
    | inr no_role ↦ inr (inl no_role)
    | inl role ↦ elim (Bool-cases (differs x exclude)) [
      | inr out ↦ (let same = differs-eq x exclude out in inr (inr (cc (id, same))))
      | inl kept ↦ absurd (ground (arith, id, role, kept, e))
    ]
  ]
]

Picks-cons :
    (exclude : Option ℕ) (n : NodeId × NodeDescriptor) (nodes : HashMap NodeId NodeDescriptor)
    (o : Option ℕ)
    → Unfit exclude n.1
    → Picks exclude nodes o
    → Picks exclude (n ∷ nodes) o
Picks-cons exclude n nodes none unfit all = (unfit, all)
Picks-cons exclude n nodes (some rid) unfit (k, at, fit) = (k, Memᴰ.tail at, fit)

pick_from-Picks :
    (exclude : Option ℕ) (nodes : HashMap NodeId NodeDescriptor)
    → Picks exclude nodes (pick_from exclude nodes)
unfolding pick_from
pick_from-Picks exclude [] = tt
pick_from-Picks exclude ((id, d) ∷ nodes) = elim (Option-cases (candidate exclude d)) [
  | inr (rid, here) ↦
      rw (here, pick_from) ((id, d), Memᴰ.head refl, candidate-Eligible exclude d rid here)
  | inl next ↦
      rw (next, pick_from)
        (Picks-cons exclude (id, d) nodes (pick_from exclude nodes) (candidate-Unfit exclude d next)
          (pick_from-Picks exclude nodes))
]

-- The executor that is picked is the Raft id of a registered node whose descriptor has the role
-- Execution, and not the excluded id; and none is picked only where every registered node has no
-- Raft id, does not have that role, or is the excluded one.
pub pick_executor-Picks :
    (s : ClusterState) (exclude : Option ℕ) → Picks exclude s.nodes (pick_executor s exclude)
unfolding pick_executor
pick_executor-Picks s exclude = pick_from-Picks exclude s.nodes
