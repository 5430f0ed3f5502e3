-- ===== src/Agent/Run.antt =====
-- agent/src/main.rs: submitting a plan, waiting for its result, and trying again. The node's answers
-- and the model are the record `Environment`; what is printed is left out.
pub mod Bounded
use edge_orchestrator.Common.{
  ℕ, zero, suc, ◌+◌, Bool, true, false, Option, none, some, List, [], ◌∷◌, ◌++◌, Bytes, leb,
  if◌then◌else◌,
}
use edge_orchestrator.Common.Int.{ℤ, pos, negsuc}
use edge_orchestrator.Types.{TaskId}
use edge_orchestrator.Ipc.Handler.{
  SubmitProjectParams, Reply, submitted, completed, task_failed, pending, topology, ResultReply,
}
use edge_orchestrator.Agent.Plan.{WorkspaceInfo, Plan, RawPlan, heuristic_plan, parse_plan}

pub record RunArgs : Type 0 where
  pub target_node : Option Bytes
  pub max_attempts : ℕ
  pub dry_run : Bool

pub data Rpc : Type 0 where
  submit_project : SubmitProjectParams → Rpc
  fetch_project_result : TaskId → Rpc

-- `rpc` is `none` where the connection fails or the answer is an error; a chat is `none` where curl
-- or its answer fails.
pub record Environment : Type 1 where
  pub World : Type 0
  pub rpc : World → Rpc → World × Option Reply
  pub llm_enabled : Bool
  pub chat_plan : World → World × Option Bytes
  pub chat_revise : World → Plan → ResultReply → World × Option Bytes
  pub chat_analysis : World → ResultReply → World
  pub from_str : Bytes → Option RawPlan

-- how a loop of the program ends
pub data Ended (A : Type 0) : Type 0 where
  got : A → Ended A
  failed : Ended A

module _ (E : Environment) where
  open E use {World}

  -- the world, and the calls that were sent to the node
  pub record Agent : Type 0 where
    pub world : World
    pub sent : List Rpc

  abbrev pub call : Agent → Rpc → Agent × Option Reply
  call a m = let (w, r) = E.rpc a.world m in (record { world = w; sent = a.sent ++ m ∷ [] }, r)

  abbrev pub submission : RunArgs → WorkspaceInfo → Plan → SubmitProjectParams
  submission args info plan = record {
    project_dir = info.root;
    work_dir = some plan.work_dir;
    build_cmd = some plan.build_cmd;
    run_cmd = some plan.run_cmd;
    timeout_ms = some 900000;
    target_node = args.target_node;
  }

  pub data Polled : Type 0 where
    finished : ResultReply → Polled
    broken : Polled
    goes_on : Polled

  -- A status that is missing counts as pending.
  abbrev pub polled : Option Reply → Polled
  polled none = broken
  polled (some (completed r)) = finished r
  polled (some (task_failed e)) = broken
  polled (some pending) = goes_on
  polled (some (submitted id)) = goes_on
  polled (some (topology n)) = goes_on

  -- the polls that are left
  unfoldable pub poll : ℕ → Agent → TaskId → Agent × Ended ResultReply
  poll zero a task_id = (a, failed)
  poll (suc k) a task_id =
      let (a', r) = call a (fetch_project_result task_id) in
      let next = poll k a' task_id in
      elim (polled r) [ finished x ↦ (a', got x) | broken ↦ (a', failed) | goes_on ↦ next ]

  abbrev pub polls : ℕ
  polls = 600

  abbrev pub task_id_of : Option Reply → Option TaskId
  task_id_of none = none
  task_id_of (some (submitted id)) = some id
  task_id_of (some (completed r)) = none
  task_id_of (some (task_failed e)) = none
  task_id_of (some pending) = none
  task_id_of (some (topology n)) = none

  abbrev pub wait_for : ℕ → Agent → Option TaskId → Agent × Ended ResultReply
  wait_for k a none = (a, failed)
  wait_for k a (some id) = poll k a id

  pub submit_and_wait : RunArgs → WorkspaceInfo → Plan → Agent → Agent × Ended ResultReply
  unfolding poll
  submit_and_wait args info plan a =
      let (a', r) = call a (submit_project (submission args info plan)) in
      wait_for polls a' (task_id_of r)

  abbrev pub is_zero : ℤ → Bool
  is_zero (pos n) = leb n 0
  is_zero (negsuc n) = false

  abbrev pub with_world : Agent → World → Agent
  with_world a w = record a { world = w }

  -- the analysis asks the model where one is configured
  abbrev pub analyse : Agent → ResultReply → Agent
  analyse a r = if E.llm_enabled then with_world a (E.chat_analysis a.world r) else a

  abbrev pub plan_in : Option Bytes → Option Plan
  plan_in none = none
  plan_in (some content) = parse_plan E.from_str content

  abbrev pub llm_revise : Agent → Plan → ResultReply → Agent × Option Plan
  llm_revise a plan r =
      let (w, content) = E.chat_revise a.world plan r in (with_world a w, plan_in content)

  pub data Next : Type 0 where
    stop : Next
    retry : Plan → Next

  abbrev pub retry_with : Agent × Option Plan → Agent × Next
  retry_with (a, none) = (a, stop)
  retry_with (a, some p) = (a, retry p)

  -- what follows a result, where attempts are left
  pub after_result : Agent → Plan → ResultReply → Agent × Next
  after_result a plan r =
      if is_zero r.exit_code
      then (a, stop)
      else if E.llm_enabled
      then retry_with (llm_revise a plan r)
      else (a, stop)

  abbrev pub Attempt : Type 0
  Attempt = Plan → Agent → Agent × Ended ResultReply

  abbrev pub try_again : Attempt → ResultReply → Agent × Next → Agent × Ended ResultReply
  try_again again r (a, stop) = (a, got r)
  try_again again r (a, retry p) = again p a

  -- what follows an attempt, by the attempts that are left
  pub after_attempt : ℕ → Attempt → Plan → Agent × Ended ResultReply → Agent × Ended ResultReply
  unfolding after_result
  after_attempt zero again plan (a, failed) = (a, failed)
  after_attempt zero again plan (a, got r) = (analyse a r, got r)
  after_attempt (suc k) again plan (a, failed) = (a, failed)
  after_attempt (suc k) again plan (a, got r) =
      try_again again r (after_result (analyse a r) plan r)

  -- `for attempt in 1..=attempts`
  unfoldable pub attempt : ℕ → RunArgs → WorkspaceInfo → Plan → Agent → Agent × Ended ResultReply
  unfolding submit_and_wait after_attempt
  attempt zero args info plan a = (a, failed)
  attempt (suc k) args info plan a =
      after_attempt k (λ p b. attempt k args info p b) plan (submit_and_wait args info plan a)

  abbrev pub at_least_one : ℕ → ℕ
  at_least_one zero = 1
  at_least_one (suc n) = suc n

  abbrev pub or_heuristic : WorkspaceInfo → Option Plan → Plan
  or_heuristic info none = heuristic_plan info
  or_heuristic info (some p) = p

  abbrev pub first_plan : WorkspaceInfo → World → World × Plan
  first_plan info w =
      if E.llm_enabled
      then (let (w', content) = E.chat_plan w in (w', or_heuristic info (plan_in content)))
      else (w, heuristic_plan info)

  -- The exit code of the process: none for a dry run's and a success' 0.
  abbrev pub exit_of : Ended ResultReply → ℕ
  exit_of failed = 1
  exit_of (got r) = if is_zero r.exit_code then 0 else 1

  -- `run`, after the workspace was scanned
  unfoldable pub run : RunArgs → WorkspaceInfo → World → Agent × ℕ
  unfolding attempt
  run args info w =
      let (w', plan) = first_plan info w in
      let a : Agent = record { world = w'; sent = [] } in
      if args.dry_run
      then (a, 0)
      else (let (a', e) = attempt (at_least_one args.max_attempts) args info plan a in
          (a', exit_of e))
