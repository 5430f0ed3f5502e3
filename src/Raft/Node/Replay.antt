-- ===== src/Raft/Node/Replay.antt =====
-- Replaying a committed log.
use edge_orchestrator.Common.{ℕ, ◌≡◌, refl, ◌∙◌, ap, some, List, [], ◌∷◌, arith}
use edge_orchestrator.Cluster.{ClusterState, Proposal, apply}
use edge_orchestrator.Cluster.Invariant.{IsWellFormed, apply-IsWellFormed}
use edge_orchestrator.Cluster.View.{view, steps, apply-refines}
use edge_orchestrator.Raft.{Entry}
use edge_orchestrator.Raft.Node.{Codec, apply_entry, apply_committed}

-- A log carries proposals: an empty entry (a new leader's) carries none, any other the encoding
-- of one.
pub data Carries (c : Codec) : List Entry → List Proposal → Type 0 where
  nothing : Carries c [] []
  noop :
      {e : Entry} {es : List Entry} {ps : List Proposal}
      → e.data' ≡ []
      → Carries c es ps
      → Carries c (e ∷ es) ps
  carry :
      {e : Entry} {es : List Entry} {p : Proposal} {ps : List Proposal}
      → c.encode p ≡ some e.data'
      → Carries c es ps
      → Carries c (e ∷ es) (p ∷ ps)

reindexed-IsWellFormed :
    (s : ClusterState) (i : ℕ) → IsWellFormed s → IsWellFormed (record s { last_applied_index = i })
reindexed-IsWellFormed s i w = record {
  unique_nodes = w.unique_nodes;
  unique_assignments = w.unique_assignments;
  keyed = w.keyed;
  registered = w.registered;
  distinct = w.distinct;
}

-- the index of the last entry is no part of the abstract view
view_reindexed : (s : ClusterState) (i : ℕ) → view (record s { last_applied_index = i }) ≡ view s
unfolding view
view_reindexed s i = refl

module _ (c : Codec) where
  apply_entry_noop : (s : ClusterState) (e : Entry) → e.data' ≡ [] → apply_entry c s e ≡ s
  unfolding apply_entry
  apply_entry_noop s e h = rw h

  apply_entry_carry :
      (s : ClusterState) (e : Entry) (p : Proposal)
      → c.encode p ≡ some e.data'
      → apply_entry c s e ≡ record (apply s p).0 { last_applied_index = e.index }
  unfolding apply_entry
  apply_entry_carry s e p h =
      ground (arith, c.decode-encode p e.data' h, c.encode-ne-nil p e.data' h)

  -- A node that applies a committed log to a well-formed state goes through the abstract steps of
  -- the proposals that the log carries, in order, once each.
  pub apply_committed-refines :
      (s : ClusterState) {es : List Entry} {ps : List Proposal}
      → IsWellFormed s
      → Carries c es ps
      → view (apply_committed c s es) ≡ steps (view s) ps
  unfolding apply_committed
  apply_committed-refines s w nothing = refl
  apply_committed-refines s w (noop {e = e} h r) =
      rw (apply_entry_noop s e h) (apply_committed-refines s w r)
  apply_committed-refines s w (carry {e = e} {p = p} {ps = ps} h r) =
      rw (apply_entry_carry s e p h) (
        apply_committed-refines (record (apply s p).0 { last_applied_index = e.index })
          (reindexed-IsWellFormed (apply s p).0 e.index (apply-IsWellFormed s p w)) r
        ∙ ap (λ v. steps v ps) (view_reindexed (apply s p).0 e.index ∙ (apply-refines s w p).0))
