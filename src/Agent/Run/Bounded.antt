-- ===== src/Agent/Run/Bounded.antt =====
-- How much a run of the agent asks of the node, and how it exits.
use edge_orchestrator.Common.{
  ℕ, zero, suc, ◌+◌, ◌*◌, ◌≤◌, ◌≡◌, refl, ap, inl, inr, Bool, true, false, Option, none, some, [],
  ◌∷◌, length, length-append, arith, Bool-cases, if◌then◌else◌,
}
use edge_orchestrator.Types.{TaskId}
use edge_orchestrator.Ipc.Handler.{ResultReply}
use edge_orchestrator.Agent.Plan.{WorkspaceInfo, Plan}
use edge_orchestrator.Agent.Run.{
  RunArgs, Rpc, submit_project, fetch_project_result, Environment, Ended, got, failed, Agent, call,
  submission, Polled, finished, broken, goes_on, polled, poll, task_id_of, wait_for,
  submit_and_wait, analyse, is_zero, exit_of, Attempt, try_again, after_attempt, Next, stop, retry,
  retry_with, llm_revise, after_result, attempt, at_least_one, first_plan, run,
}

module _ (E : Environment) where
  abbrev pub calls : Agent E → ℕ
  calls a = length a.sent

  calls-call : (a : Agent E) (m : Rpc) → calls (call E a m).0 ≡ calls a + 1
  calls-call a m = length-append a.sent (m ∷ [])

  end_poll :
      (a n : Agent E) (e : Ended ResultReply) (k : ℕ) (p : Polled E)
      → calls n ≤ calls a + k
      → calls
          (elim p as (λ _. Agent E × Ended ResultReply) [
            | finished x ↦ (a, got x)
            | broken ↦ (a, failed)
            | goes_on ↦ (n, e)
          ]).0
        ≤ calls a + k
  end_poll a n e k (finished x) h = omega arith
  end_poll a n e k broken h = omega arith
  end_poll a n e k goes_on h = h

  poll_bounded : (k : ℕ) (a : Agent E) (id : TaskId) → calls (poll E k a id).0 ≤ calls a + k
  unfolding poll
  poll_bounded zero a id = omega arith
  poll_bounded (suc k) a id =
      let a' = (call E a (fetch_project_result id)).0 in
      let r = (call E a (fetch_project_result id)).1 in
      let next = poll E k a' id in
      let h = end_poll a' next.0 next.1 k (polled E r) (poll_bounded k a' id) in
      omega (arith, h, calls-call a (fetch_project_result id))

  wait_for_bounded :
      (k : ℕ) (a : Agent E) (o : Option TaskId) → calls (wait_for E k a o).0 ≤ calls a + k
  wait_for_bounded k a none = omega arith
  wait_for_bounded k a (some id) = poll_bounded k a id

  submit_bounded :
      (args : RunArgs) (info : WorkspaceInfo) (plan : Plan) (a : Agent E)
      → calls (submit_and_wait E args info plan a).0 ≤ calls a + 601
  unfolding submit_and_wait
  submit_bounded args info plan a =
      let m = submit_project (submission E args info plan) in
      let a' = (call E a m).0 in
      let h = wait_for_bounded 600 a' (task_id_of E (call E a m).1) in
      omega (arith, h, calls-call a m)

  sent-analyse : (a : Agent E) (r : ResultReply) → (analyse E a r).sent ≡ a.sent
  sent-analyse a r = elim (Bool-cases E.llm_enabled) [ inl on ↦ rw on refl | inr off ↦ rw off refl ]

  sent-retry_with : (a : Agent E) (o : Option Plan) → (retry_with E (a, o)).0.sent ≡ a.sent
  sent-retry_with a none = refl
  sent-retry_with a (some p) = refl

  sent-after_result :
      (a : Agent E) (plan : Plan) (r : ResultReply) → (after_result E a plan r).0.sent ≡ a.sent
  unfolding after_result
  sent-after_result a plan r = elim (Bool-cases (is_zero E r.exit_code)) [
    | inl good ↦ rw good refl
    | inr bad ↦ elim (Bool-cases E.llm_enabled) [
      | inl on ↦ rw bad (rw on (let l = llm_revise E a plan r in sent-retry_with l.0 l.1))
      | inr off ↦ rw bad (rw off refl)
    ]
  ]

  abbrev Within : ℕ → Attempt E → Type 0
  Within n again = (p : Plan) (b : Agent E) → calls (again p b).0 ≤ calls b + n

  try_bounded :
      (n : ℕ) (again : Attempt E) (r : ResultReply) (a : Agent E) (next : Next E)
      → Within n again
      → calls (try_again E again r (a, next)).0 ≤ calls a + n
  try_bounded n again r a stop h = omega arith
  try_bounded n again r a (retry p) h = h p a

  after_bounded :
      (k n : ℕ) (again : Attempt E) (plan : Plan) (a : Agent E) (e : Ended ResultReply)
      → Within n again
      → calls (after_attempt E k again plan (a, e)).0 ≤ calls a + n
  unfolding after_attempt
  after_bounded zero n again plan a failed h = omega arith
  after_bounded zero n again plan a (got r) h =
      let s = ap length (sent-analyse a r) in omega (arith, s)
  after_bounded (suc k) n again plan a failed h = omega arith
  after_bounded (suc k) n again plan a (got r) h =
      let b = analyse E a r in
      let c = after_result E b plan r in
      let t = try_bounded n again r c.0 c.1 h in
      omega (arith, t, ap length (sent-after_result b plan r), ap length (sent-analyse a r))

  exit_bounded : (e : Ended ResultReply) → exit_of E e ≤ 1
  exit_bounded failed = omega arith
  exit_bounded (got r) = ground arith

  attempt_bounded :
      (k : ℕ) (args : RunArgs) (info : WorkspaceInfo) (plan : Plan) (a : Agent E)
      → calls (attempt E k args info plan a).0 ≤ calls a + 601 * k
  unfolding attempt
  attempt_bounded zero args info plan a = omega arith
  attempt_bounded (suc k) args info plan a =
      let s = submit_and_wait E args info plan a in
      let h =
        after_bounded k (601 * k) (λ p b. attempt E k args info p b) plan s.0 s.1
          (λ p b. attempt_bounded k args info p b) in
      omega (arith, h, submit_bounded args info plan a)

  dry_bounded :
      (dry : Bool) (a : Agent E) (r : Agent E × ℕ) (n : ℕ)
      → calls a ≤ 0
      → calls r.0 ≤ n
      → r.1 ≤ 1
      → (calls (if dry then (a, 0) else r).0 ≤ (if dry then 0 else n))
        × ((if dry then (a, 0) else r).1 ≤ 1)
  dry_bounded true a r n h g e = (h, omega arith)
  dry_bounded false a r n h g e = (g, e)

  -- Whatever the node and the model answer, as long as every call returns: a run of the agent sends
  -- the node at most 601 requests, one submission and 600 polls, for each of at most `max_attempts`
  -- attempts, or for one attempt where that is 0; and none at all in a dry run. Its exit code is 0 or
  -- 1.
  pub run_bounded :
      (args : RunArgs) (info : WorkspaceInfo) (w : E.World)
      → (calls (run E args info w).0
          ≤ (if args.dry_run then 0 else 601 * at_least_one E args.max_attempts))
        × ((run E args info w).1 ≤ 1)
  unfolding run
  run_bounded args info w =
      let f = first_plan E info w in
      let a : Agent E = record { world = f.0; sent = [] } in
      let k = at_least_one E args.max_attempts in
      let e = attempt E k args info f.1 a in
      dry_bounded args.dry_run a (e.0, exit_of E e.1) (601 * k) (omega arith)
        (let h = attempt_bounded k args info f.1 a in omega (arith, h)) (exit_bounded e.1)
