-- ===== src/RoleEngine/Failover.antt =====
-- Which nodes take over the roles of a failed node, and what a refused send leaves undone.
use edge_orchestrator.Common.{
  ◌≡◌, refl, ◌∙◌, ap, sym, Bool, true, false, not, none, some, List, [], ◌∷◌, ◌++◌, arith, nat_eq,
  ◌⊎◌, inl, inr, Bytes, Bytes-discrete, bytes_eq, All, contains, Option-cases, Bool-cases,
}
use mathlib.Core.List.{append-nil, append_assoc}
use edge_orchestrator.Common.HashMap
use edge_orchestrator.Common.HashMap.{HashMap}
use edge_orchestrator.Common.Channel.{Channel}
use edge_orchestrator.Types.{
  NodeId, NodeDescriptor, Capabilities, Role, role_eq, CoreError, network, execution, storage,
  inference, coordinator, bootstrap, heavy,
}
use edge_orchestrator.Cluster.{Proposal, assign_role}
use edge_orchestrator.RoleEngine.{
  Result, ok, err, shares, fits, find_alternative, Engine, reassign, is_empty, finish,
  handle_node_failure,
}

-- The alternative that is found is a known node that fits.
find_alternative-fits :
    (m : HashMap NodeId NodeDescriptor) (r : Role) (lost : Capabilities) {a : NodeId}
    → HashMap.IsUnique m
    → find_alternative m r lost ≡ some a
    → (d : NodeDescriptor) × (HashMap.get a m ≡ some d) × (fits r lost d ≡ true)
unfolding find_alternative HashMap.get
find_alternative-fits [] r lost {a = a} u h = cc
find_alternative-fits ((id, desc) ∷ m) r lost {a = a} u h = elim (Bool-cases (fits r lost desc)) [
  | inl here ↦ (desc, ground arith, here)
  | inr next ↦
      let (d, at, fit) = find_alternative-fits m r lost {a = a} u.1 (ground arith) in
      (d, ground (arith, HashMap.contains_key_iff_get id m, u.0), fit)
]

-- The proposals of a failover: for each lost role, one if an alternative is found.
pub takeovers : HashMap NodeId NodeDescriptor → Capabilities → List Role → List Proposal
takeovers m lost [] = []
takeovers m lost (r ∷ roles) =
    let rest = takeovers m lost roles in
    elim (find_alternative m r lost) [ none ↦ rest | some a ↦ assign_role a r ∷ rest ]

abbrev pub Member : Proposal → List Proposal → Type 0
Member p [] = ⊥
Member p (q ∷ ps) = (p ≡ q) ⊎ Member p ps

-- A lost role that some node of the table fits is given to one that is known and fits.
takeovers_total :
    (m : HashMap NodeId NodeDescriptor) (lost : Capabilities) (roles : List Role) (r : Role)
    (a : NodeId)
    → contains r roles ≡ true
    → find_alternative m r lost ≡ some a
    → Member (assign_role a r) (takeovers m lost roles)
unfolding takeovers contains
takeovers_total m lost [] r a c found = absurd (ground arith)
takeovers_total m lost (q ∷ roles) r a c found = elim (role_eq.dec q r) [
  | yes same ↦ rw same (rw (found, takeovers) (inl refl))
  | no other ↦
      let rest = takeovers_total m lost roles r a (ground arith) found in
      elim (Option-cases (find_alternative m q lost)) [
        | inl e ↦ rw (e, takeovers) rest
        | inr (x, e) ↦ rw (e, takeovers) (inr rest)
      ]
]

-- What a node needs to take a role over from one with these capabilities.
abbrev pub CanTake : Role → Capabilities → NodeDescriptor → Type 0
CanTake execution lost d =
    (x : Bytes) × (contains x d.capabilities.runtimes ≡ true) × (contains x lost.runtimes ≡ true)
CanTake storage lost d = d.capabilities.storage ≡ true
CanTake inference lost d = d.capabilities.gpu_acceleration ≡ true
CanTake coordinator lost d = Unit {0}
CanTake bootstrap lost d = d.node_type ≡ heavy

shared :
    (xs ys : List Bytes)
    → shares xs ys ≡ true
    → (x : Bytes) × (contains x xs ≡ true) × (contains x ys ≡ true)
unfolding shares contains
shared [] ys h = absurd (cc)
shared (x ∷ xs) ys h = elim (Bool-cases (contains x ys)) [
  | inl here ↦ (x, ground arith, here)
  | inr out ↦ let (z, a, b) = shared xs ys (ground (arith, out, h)) in (z, ground (arith, a), b)
]

shares_shared :
    (xs ys : List Bytes) (x : Bytes)
    → contains x xs ≡ true
    → contains x ys ≡ true
    → shares xs ys ≡ true
unfolding shares contains
shares_shared [] ys x a b = absurd (cc)
shares_shared (z ∷ xs) ys x a b = elim (Bytes-discrete z x) [
  | yes same ↦ rw same (rw b refl)
  | no other ↦ ground (arith, shares_shared xs ys x (ground (arith, other, a)) b)
]

fits-CanTake :
    (r : Role) (lost : Capabilities) (d : NodeDescriptor) → fits r lost d ≡ true → CanTake r lost d
unfolding fits
fits-CanTake execution lost d h = shared d.capabilities.runtimes lost.runtimes h
fits-CanTake storage lost d h = h
fits-CanTake inference lost d h = h
fits-CanTake coordinator lost d h = tt
fits-CanTake bootstrap lost d h = ground arith

CanTake-fits :
    (r : Role) (lost : Capabilities) (d : NodeDescriptor) → CanTake r lost d → fits r lost d ≡ true
unfolding fits
CanTake-fits execution lost d (x, a, b) = shares_shared d.capabilities.runtimes lost.runtimes x a b
CanTake-fits storage lost d h = h
CanTake-fits inference lost d h = h
CanTake-fits coordinator lost d h = refl
CanTake-fits bootstrap lost d h = ground arith

none_fits :
    (m : HashMap NodeId NodeDescriptor) (r : Role) (lost : Capabilities)
    → find_alternative m r lost ≡ none
    → All (λ n. ¬ CanTake r lost n.1) m
unfolding find_alternative
none_fits [] r lost h = tt
none_fits ((id, d) ∷ m) r lost h = elim (Bool-cases (fits r lost d)) [
  | inl fit ↦ absurd (ground arith)
  | inr unfit ↦ (
    λ can. (let fit = CanTake-fits r lost d can in ground (arith, fit, unfit)),
    none_fits m r lost (ground arith),
  )
]

module _ (ch : Channel Proposal) where
  -- All of `ps` went out and the result is `b`; or the receiver is gone, and `ps` was cut off
  -- before a proposal that could not be sent.
  abbrev pub Outcome : {B : Type 0} → Engine ch → List Proposal → B → Engine ch → Result B → Type 0
  Outcome e ps b e' (ok x) = (x ≡ b) × (ch.sent e'.proposal_tx ≡ ch.sent e.proposal_tx ++ ps)
  Outcome e ps b e' (err x) =
      (x ≡ network)
      × (ch.is_open e'.proposal_tx ≡ false)
      × ((done : List Proposal) × (p : Proposal) × (rest : List Proposal) × (ps ≡ done ++ p ∷ rest)
          × (ch.sent e'.proposal_tx ≡ ch.sent e.proposal_tx ++ done))

  Outcome-cons :
      (e e₁ e' : Engine ch) (p : Proposal) (ps : List Proposal) (r : Result (Unit {0}))
      → ch.sent e₁.proposal_tx ≡ ch.sent e.proposal_tx ++ p ∷ []
      → Outcome e₁ ps tt e' r
      → Outcome e (p ∷ ps) tt e' r
  Outcome-cons e e₁ e' p ps (ok x) h o =
      (o.0, o.1 ∙ ap (λ l. l ++ ps) h ∙ append_assoc (ch.sent e.proposal_tx) (p ∷ []) ps)
  Outcome-cons e e₁ e' p ps (err x) h (n, closed, (done, q, rest, cut, out)) = (
    n,
    closed,
    (
      p ∷ done,
      q,
      rest,
      ap (λ l. p ∷ l) cut,
      out ∙ ap (λ l. l ++ done) h ∙ append_assoc (ch.sent e.proposal_tx) (p ∷ []) done,
    ),
  )

  nodes-reassign :
      (e : Engine ch) (lost : Capabilities) (roles : List Role)
      → (reassign ch e lost roles).0.nodes ≡ e.nodes
  unfolding reassign
  nodes-reassign e lost [] = refl
  nodes-reassign e lost (r ∷ roles) = elim (Option-cases (find_alternative e.nodes r lost)) [
    | inl nobody ↦ rw (nobody, reassign) (nodes-reassign e lost roles)
    | inr (a, found) ↦ elim (Option-cases (ch.send e.proposal_tx (assign_role a r))) [
      | inl refused ↦ rw (found, reassign) (rw refused refl)
      | inr (tx, sent) ↦
          rw (found, reassign) (rw sent (nodes-reassign (record e { proposal_tx = tx }) lost roles))
    ]
  ]

  reassign-Outcome :
      (e : Engine ch) (lost : Capabilities) (roles : List Role)
      → Outcome e
          (takeovers e.nodes lost roles)
          tt
          (reassign ch e lost roles).0
          (reassign ch e lost roles).1
  unfolding reassign takeovers
  reassign-Outcome e lost [] = (refl, sym (append-nil (ch.sent e.proposal_tx)))
  reassign-Outcome e lost (r ∷ roles) = elim (Option-cases (find_alternative e.nodes r lost)) [
    | inl nobody ↦ rw (nobody, reassign, takeovers) (reassign-Outcome e lost roles)
    | inr (a, found) ↦ elim (Option-cases (ch.send e.proposal_tx (assign_role a r))) [
      | inl refused ↦
          rw (found, reassign, takeovers)
            (rw refused (
              refl,
              ch.send_open e.proposal_tx (assign_role a r) refused,
              (
                [],
                assign_role a r,
                takeovers e.nodes lost roles,
                refl,
                sym (append-nil (ch.sent e.proposal_tx)),
              ),
            ))
      | inr (tx, sent) ↦
          let e₁ : Engine ch = record e { proposal_tx = tx } in
          rw (found, reassign, takeovers)
            (rw sent (
              Outcome-cons e e₁ (reassign ch e₁ lost roles).0 (assign_role a r)
                (takeovers e.nodes lost roles) (reassign ch e₁ lost roles).1
                (ch.sent-send e.proposal_tx tx (assign_role a r) sent)
                (reassign-Outcome e₁ lost roles)))
    ]
  ]

  finish-Outcome :
      (e : Engine ch) (ps : List Proposal) (b : Bool) (e' : Engine ch) (r : Result (Unit {0}))
      → Outcome e ps tt e' r
      → ((finish ch b (e', r)).0.nodes ≡ e'.nodes)
        × Outcome e ps b (finish ch b (e', r)).0 (finish ch b (e', r)).1
  unfolding finish
  finish-Outcome e ps b e' (ok x) o = (refl, (refl, o.1))
  finish-Outcome e ps b e' (err x) o = (refl, o)

  -- The failure of a known node takes it out of the engine's table and sends the take-overs
  -- computed from the remaining nodes, all of them, with the result whether it had any role; or
  -- the receiver is gone, and the take-overs were sent up to the first refused one.
  pub handle_node_failure-Outcome :
      (e : Engine ch) (n : NodeId) (desc : NodeDescriptor)
      → HashMap.get n e.nodes ≡ some desc
      → ((handle_node_failure ch e n).0.nodes ≡ HashMap.remove n e.nodes)
        × Outcome e
            (takeovers (HashMap.remove n e.nodes) desc.capabilities desc.current_assigned_roles)
            (not (is_empty ch desc.current_assigned_roles))
            (handle_node_failure ch e n).0
            (handle_node_failure ch e n).1
  unfolding handle_node_failure
  handle_node_failure-Outcome e n desc h =
      let rest : Engine ch = record e { nodes = HashMap.remove n e.nodes } in
      let roles = desc.current_assigned_roles in
      let lost = desc.capabilities in
      let run = reassign ch rest lost roles in
      let (same, out) =
        finish-Outcome e (takeovers rest.nodes lost roles) (not (is_empty ch roles)) run.0 run.1
          (reassign-Outcome rest lost roles) in
      rw (h, handle_node_failure) (same ∙ nodes-reassign rest lost roles, out)

  -- A failure of a known node that is handled without an error, over a table with one entry for each
  -- node: for each role that the node had, either a proposal goes out that assigns it to a node of
  -- the remaining table which can take it, or no node of that table can.
  pub handle_node_failure-Reassigned :
      (e : Engine ch) (n : NodeId) (desc : NodeDescriptor) (r : Role) (b : Bool)
      → HashMap.IsUnique e.nodes
      → HashMap.get n e.nodes ≡ some desc
      → contains r desc.current_assigned_roles ≡ true
      → (handle_node_failure ch e n).1 ≡ ok b
      → let rest = HashMap.remove n e.nodes in
        ((a : NodeId) × (d : NodeDescriptor) × (ps : List Proposal) × (HashMap.get a rest ≡ some d)
          × CanTake r desc.capabilities d
          × Member (assign_role a r) ps
          × (ch.sent (handle_node_failure ch e n).0.proposal_tx ≡ ch.sent e.proposal_tx ++ ps))
        ⊎ All (λ k. ¬ CanTake r desc.capabilities k.1) rest
  handle_node_failure-Reassigned e n desc r b u known lost done =
      let rest = HashMap.remove n e.nodes in
      let ps = takeovers rest desc.capabilities desc.current_assigned_roles in
      let (same, out) = handle_node_failure-Outcome e n desc known in
      elim (Option-cases (find_alternative rest r desc.capabilities)) [
        | inl nobody ↦ inr (none_fits rest r desc.capabilities nobody)
        | inr (a, found) ↦
            (let (d, at, fit) =
                find_alternative-fits rest r desc.capabilities (HashMap.remove-IsUnique n e.nodes u)
                  found in
              inl (
                a,
                d,
                ps,
                at,
                fits-CanTake r desc.capabilities d fit,
                takeovers_total rest desc.capabilities desc.current_assigned_roles r a lost found,
                (rw done at out).1,
              ))
      ]

  unknown_failure :
      (e : Engine ch) (n : NodeId)
      → HashMap.get n e.nodes ≡ none
      → handle_node_failure ch e n ≡ (e, ok false)
  unfolding handle_node_failure
  unknown_failure e n h = rw (h, handle_node_failure)

  -- After a failover that a refused send cut off, handling the same failure again does nothing
  -- and reports no failover: the roles that were left are not reassigned.
  pub handle_node_failure_no_retry :
      (e : Engine ch) (n : NodeId) {x : CoreError}
      → (handle_node_failure ch e n).1 ≡ err x
      → handle_node_failure ch (handle_node_failure ch e n).0 n
        ≡ ((handle_node_failure ch e n).0, ok false)
  handle_node_failure_no_retry e n h = elim (Option-cases (HashMap.get n e.nodes)) [
    | inl unknown ↦ absurd (cc (unknown_failure e n unknown))
    | inr (desc, known) ↦
        let e' : Engine ch = (handle_node_failure ch e n).0 in
        let gone : e'.nodes ≡ HashMap.remove n e.nodes =
          (handle_node_failure-Outcome e n desc known).0 in
        unknown_failure e' n
          (ap (HashMap.get n) gone ∙ ground (arith, HashMap.get-remove n n e.nodes))
  ]
