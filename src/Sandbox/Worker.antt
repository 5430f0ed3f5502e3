-- ===== src/Sandbox/Worker.antt =====
-- crates/sandbox/src/qlean.rs: the worker that owns the image and the one machine, and takes the jobs
-- one after the other.
pub mod Boots
pub mod Isolation
use edge_orchestrator.Common.{
  ℕ, Bool, true, false, Option, none, some, List, [], ◌∷◌, if◌then◌else◌,
}
use edge_orchestrator.Types.{CoreError, sandbox_execution}
use edge_orchestrator.Types.Project.{ProjectSpec, ExecutionResult}
use edge_orchestrator.Raft.Storage.Interfaces.{Result, ok, err}
use edge_orchestrator.Sandbox.{PoolAction, PoolPlan, keep, discard, refill, new, after_job}
use edge_orchestrator.Sandbox.Policy.{
  VmMode, allows_reuse, phase_budget, image, boot, ceiling, PhaseBudget,
}
use edge_orchestrator.Sandbox.Guest.{Host, execute_on_vm}

pub record Job : Type 0 where
  pub spec : ProjectSpec
  pub deadline : ℕ

module _ (H : Host) where
  open H use {World, now}

  -- the locals of `worker`, and the world
  pub record Worker : Type 0 where
    pub plan : PoolPlan
    pub has_image : Bool
    pub machine : Option ℕ
    pub world : World

  abbrev pub start : VmMode → ℕ → World → Worker
  start mode pool_size w = record {
    plan = new (allows_reuse mode) pool_size;
    has_image = false;
    machine = none;
    world = w;
  }

  pub image_unless : Worker → ℕ → Bool → Worker × Bool
  image_unless s deadline true = (s, true)
  image_unless s deadline false =
      let (w, made) = H.image_new s.world (phase_budget deadline (now s.world) image) in
      (record s { world = w; has_image = made }, made)

  unfoldable pub ensure_image : Worker → ℕ → Worker × Bool
  unfolding image_unless
  ensure_image s deadline = image_unless s deadline s.has_image

  -- the machine, where it also comes up; the budget counts for each of the two steps
  pub init_machine : ℕ → World × Option ℕ → World × Option ℕ
  init_machine budget (w, none) = (w, none)
  init_machine budget (w, some m) =
      let (w', up) = H.init w m budget in (w', if up then some m else none)

  pub boot_machine : World → ℕ → World × Option ℕ
  unfolding init_machine
  boot_machine w budget = init_machine budget (H.machine_new w budget)

  -- whether the machine that is kept can be used, `unwrap_or(false)`
  pub check_running : Worker → Option ℕ → Worker × Bool
  check_running s none = (s, false)
  check_running s (some m) =
      let (w, runs) = H.is_running s.world m in (record s { world = w }, runs)

  abbrev pub store_booted : Worker → World × Option ℕ → Worker × Bool
  store_booted s (w, none) = (record s { world = w }, false)
  store_booted s (w, some m) = (record s { world = w; machine = some m }, true)

  pub boot_unless : Worker × Bool → ℕ → Worker × Bool
  unfolding boot_machine
  boot_unless (s, true) deadline = (s, true)
  boot_unless (s, false) deadline =
      store_booted s (boot_machine s.world (phase_budget deadline (now s.world) boot))

  -- the closure `prepared`
  pub prepare_with : Worker × Bool → ℕ → Worker × Bool
  unfolding boot_unless check_running
  prepare_with (s, false) deadline = (s, false)
  prepare_with (s, true) deadline = boot_unless (check_running s s.machine) deadline

  unfoldable pub prepare : Worker → ℕ → Worker × Bool
  unfolding prepare_with ensure_image
  prepare s deadline = prepare_with (ensure_image s deadline) deadline

  -- a failed task leaves no machine behind
  pub settle : Worker → World × Result ExecutionResult → Worker × Result ExecutionResult
  settle s (w, ok r) = (record s { world = w }, ok r)
  settle s (w, err e) = (record s { world = w; machine = none }, err e)

  -- the outcome, and the machine that the task ran on; `expect` does not fail: a prepared worker
  -- has a machine
  pub execute : Worker → Job → Option ℕ → Worker × Result ExecutionResult × Option ℕ
  unfolding settle
  execute s j none = (s, err sandbox_execution, none)
  execute s j (some m) =
      let (s', r) = settle s (execute_on_vm H s.world m j.spec j.deadline) in (s', r, some m)

  pub run_prepared : Worker × Bool → Job → Worker × Result ExecutionResult × Option ℕ
  unfolding execute
  run_prepared (s, true) j = execute s j s.machine
  run_prepared (s, false) j = (record s { machine = none }, err sandbox_execution, none)

  pub discard_machine : Worker → Option ℕ → Worker
  discard_machine s none = s
  discard_machine s (some m) = record s { world = (H.shutdown s.world m).0; machine = none }

  pub refill_pool : Worker → Bool → Worker
  unfolding boot_machine
  refill_pool s false = s
  refill_pool s true = (store_booted s (boot_machine s.world (ceiling boot))).0

  pub follow : Worker → List PoolAction → Worker
  unfolding discard_machine refill_pool
  follow s [] = s
  follow s (keep ∷ actions) = follow s actions
  follow s (discard ∷ actions) = follow (discard_machine s s.machine) actions
  follow s (refill n ∷ actions) = follow (refill_pool s s.has_image) actions

  -- One round of the loop. The reply is sent last, after the refill.
  unfoldable pub round : Worker → Job → Worker × Result ExecutionResult × Option ℕ
  unfolding prepare run_prepared follow
  round s j =
      let (s', outcome, ran_on) = run_prepared (prepare s j.deadline) j in
      (follow s' (after_job s'.plan), outcome, ran_on)

  -- The rounds of some jobs, with the machines that they ran on.
  abbrev pub add_machine : Option ℕ → List ℕ → List ℕ
  add_machine none ms = ms
  add_machine (some m) ms = m ∷ ms

  unfoldable pub worker : Worker → List Job → List ℕ → Worker × List ℕ
  unfolding round
  worker s [] ran = (s, ran)
  worker s (j ∷ js) ran =
      let (s', outcome, ran_on) = round s j in worker s' js (add_machine ran_on ran)
