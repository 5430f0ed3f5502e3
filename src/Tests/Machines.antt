-- ===== src/Tests/Machines.antt =====
-- The worker of the sandbox, on a host that boots every machine, and runs every command, at once.
use edge_orchestrator.Common.{
  ℕ, zero, suc, ◌≡◌, ◌≤◌, ◌-◌, refl, true, false, none, some, List, [], ◌∷◌, codes, arith, contains,
  nat_eq, IsDistinct,
}
use edge_orchestrator.Common.Int.{pos}
use edge_orchestrator.Types.Project.{ProjectSpec, default_limits}
use edge_orchestrator.Sandbox.Policy.{
  max, fresh, boot, phase_budget, ceiling, secs, phase_budget_bounds,
}
use edge_orchestrator.Sandbox.Guest.{Host, Output}
use edge_orchestrator.Sandbox.Worker.{Job, worker, start}
use edge_orchestrator.Sandbox.Worker.Isolation.{worker-IsDistinct}

-- the numbers below this one
abbrev below : ℕ → List ℕ
below zero = []
below (suc n) = n ∷ below n

not_below : (m n : ℕ) → n ≤ m → contains m (below n) ≡ false
unfolding contains
not_below m zero h = refl
not_below m (suc n) h = ground (arith, not_below m n (omega (arith, h)))

abbrev output : Output
output = record {
  status = record { code = some (pos 0); signal = none };
  stdout = codes "ok";
  stderr = [];
}

some_same : (n m : ℕ) → some n ≡ some m → n ≡ m
some_same n m e = cc

pub made_next : (w b m : ℕ) → some w ≡ some m → below (suc w) ≡ m ∷ below w
made_next w b m e = rw (some_same w m e) refl

pub none_failed : (w b : ℕ) → some w ≡ none → below (suc w) ≡ below w
none_failed w b e = absurd (cc)

pub next_fresh : (w b m : ℕ) → some w ≡ some m → contains m (below w) ≡ false
next_fresh w b m e = rw (some_same w m e) (not_below m m (omega arith))

-- the number of machines made
abbrev host : Host
host = record {
  World = ℕ;
  now = λ w. 0;
  made = below;
  image_new = λ w b. (w, true);
  machine_new = λ w b. (suc w, some w);
  init = λ w m b. (w, true);
  is_running = λ w m. (w, true);
  shutdown = λ w m. (w, true);
  exec = λ w m c b. (w, some output);
  upload_dir = λ w m d t b. (w, true);
  is_dir = λ w p. true;
  parent = λ p. none;
  made-image_new = λ w b. refl;
  made-init = λ w m b. refl;
  made-is_running = λ w m. refl;
  made-shutdown = λ w m. refl;
  made-exec = λ w m c b. refl;
  made-upload_dir = λ w m d t b. refl;
  made-machine_new = made_next;
  machine_new_failed = none_failed;
  machine_new_fresh = next_fresh;
}

abbrev spec : ProjectSpec
spec = record {
  snapshot_hash = [];
  local_project_dir = none;
  work_dir = codes "/root/project";
  build_cmd = [];
  run_cmd = codes "make" ∷ [];
  timeout_ms = 1000;
  resource_limits = default_limits;
}

abbrev job : Job
job = record { spec = spec; deadline = 1_000_000_000 }

worker-IsDistinct_example :
    IsDistinct (worker host (start host fresh 1 0) (job ∷ job ∷ job ∷ []) []).1
worker-IsDistinct_example = worker-IsDistinct host 1 0 (job ∷ job ∷ job ∷ [])

phase_budget_bounds_example :
    (secs 1 ≤ phase_budget 90 50 boot)
    × (phase_budget 90 50 boot ≤ ceiling boot)
    × (phase_budget 90 50 boot ≤ max (90 - 50) (secs 1))
phase_budget_bounds_example = phase_budget_bounds 90 50 boot
