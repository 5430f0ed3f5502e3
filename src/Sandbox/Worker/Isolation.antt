-- ===== src/Sandbox/Worker/Isolation.antt =====
-- The machines that a worker runs its tasks on in fresh mode.
use edge_orchestrator.Common.{
  ℕ, ◌≡◌, ◌⊎◌, ◌∙◌, refl, sym, ap, inl, inr, Bool, true, false, Option, none, some, List, [], ◌∷◌,
  contains, nat_eq, IsDistinct, arith, Bool-cases, ℕ_discrete, ◌==◌,
}
use edge_orchestrator.Types.Project.{ExecutionResult}
use edge_orchestrator.Raft.Storage.Interfaces.{Result, ok, err}
use edge_orchestrator.Sandbox.{PoolPlan, discard, refill, new, after_job}
use edge_orchestrator.Sandbox.Policy.{fresh, boot, ceiling}
use edge_orchestrator.Sandbox.Guest.{Host, execute_on_vm}
use edge_orchestrator.Sandbox.Guest.Made.{made-execute_on_vm}
use edge_orchestrator.Sandbox.Worker.{
  Worker, Job, start, ensure_image, boot_machine, prepare, settle, execute, run_prepared,
  discard_machine, refill_pool, follow, round, add_machine, worker,
}
use edge_orchestrator.Sandbox.Worker.Boots.{
  Grows-eq, boot_machine-Booted, Inv, store_booted-Inv, image_unless-Inv, prepare_with-Inv,
}

module _ (H : Host) where
  open H use {World, made}

  -- The same, less what the kept machine has run.
  record Spent (s : Worker H) (ran : List ℕ) : Type 0 where
    is_fresh : s.plan.reuse ≡ false
    distinct : IsDistinct ran
    old : (m : ℕ) → contains m ran ≡ true → contains m (made s.world) ≡ true

  Inv-Spent : (s : Worker H) (ran : List ℕ) → Inv H s ran → Spent (record s { machine = none }) ran
  Inv-Spent s ran h = record { is_fresh = h.is_fresh; distinct = h.distinct; old = h.old }

  seen :
      (s : Worker H) (m : ℕ) (ran : List ℕ) (w : World)
      → made w ≡ made s.world
      → contains m (made s.world) ≡ true
      → Inv H s ran
      → (x : ℕ) → contains x (m ∷ ran) ≡ true
      → contains x (made w) ≡ true
  unfolding contains
  seen s m ran w same there h x c = elim (ℕ_discrete m x) [
    | yes e ↦ ap (contains x) same ∙ ap (λ (k : ℕ). contains k (made s.world)) (sym e) ∙ there
    | no ne ↦ ap (contains x) same ∙ h.old x (ground (arith, c, ne))
  ]

  -- The machine that ran a task is one of those that ran, and was not before.
  settle-Spent :
      (s : Worker H) (m : ℕ) (ran : List ℕ) (r : World × Result ExecutionResult)
      → made r.0 ≡ made s.world
      → contains m ran ≡ false
      → contains m (made s.world) ≡ true
      → Inv H s ran
      → Spent (settle H s r).0 (m ∷ ran)
  unfolding settle
  settle-Spent s m ran (w, ok x) same unused there h = record {
    is_fresh = h.is_fresh;
    distinct = (unused, h.distinct);
    old = seen s m ran w same there h;
  }
  settle-Spent s m ran (w, err e) same unused there h = record {
    is_fresh = h.is_fresh;
    distinct = (unused, h.distinct);
    old = seen s m ran w same there h;
  }

  execute-Spent :
      (s : Worker H) (j : Job) (ran : List ℕ) (o : Option ℕ)
      → s.machine ≡ o
      → Inv H s ran
      → Spent (execute H s j o).0 (add_machine H (execute H s j o).2 ran)
  unfolding execute
  execute-Spent s j ran none e h = record {
    is_fresh = h.is_fresh;
    distinct = h.distinct;
    old = h.old;
  }
  execute-Spent s j ran (some m) e h =
      settle-Spent s m ran (execute_on_vm H s.world m j.spec j.deadline)
        (made-execute_on_vm H s.world m j.spec j.deadline) (h.idle m e).0 (h.idle m e).1 h

  run_prepared-Spent :
      (r : Worker H × Bool) (j : Job) (ran : List ℕ)
      → Inv H r.0 ran
      → Spent (run_prepared H r j).0 (add_machine H (run_prepared H r j).2 ran)
  unfolding run_prepared
  run_prepared-Spent (s, true) j ran h = execute-Spent s j ran s.machine refl h
  run_prepared-Spent (s, false) j ran h = Inv-Spent s ran h

  discard_machine-Inv :
      (s : Worker H) (ran : List ℕ) (o : Option ℕ)
      → s.machine ≡ o
      → Spent s ran
      → Inv H (discard_machine H s o) ran
  unfolding discard_machine
  discard_machine-Inv s ran none e h = record {
    is_fresh = h.is_fresh;
    distinct = h.distinct;
    old = h.old;
    idle = λ m f. absurd (cc (e, f));
  }
  discard_machine-Inv s ran (some k) e h = record {
    is_fresh = h.is_fresh;
    distinct = h.distinct;
    old = λ m c.
        Grows-eq H s.world (H.shutdown s.world k).0 (H.made-shutdown s.world k) m (h.old m c);
    idle = λ m f. absurd (cc);
  }

  refill_pool-Inv :
      (s : Worker H) (ran : List ℕ) (b : Bool) → Inv H s ran → Inv H (refill_pool H s b) ran
  unfolding refill_pool
  refill_pool-Inv s ran false h = h
  refill_pool-Inv s ran true h =
      store_booted-Inv H s ran (boot_machine H s.world (ceiling boot))
        (boot_machine-Booted H s.world (ceiling boot)) h

  fresh_actions :
      (p : PoolPlan)
      → p.reuse ≡ false
      → (after_job p ≡ discard ∷ []) ⊎ ((n : ℕ) × (after_job p ≡ discard ∷ refill n ∷ []))
  unfolding after_job
  fresh_actions p e = elim (Bool-cases (p.target == 0)) [
    | inl nothing ↦ inl (rw e (rw nothing refl))
    | inr some_machines ↦ inr (p.target, rw e (rw some_machines refl))
  ]

  follow-Inv :
      (s : Worker H) (ran : List ℕ) → Spent s ran → Inv H (follow H s (after_job s.plan)) ran
  unfolding follow
  follow-Inv s ran h =
      let empty = discard_machine-Inv s ran s.machine refl h in
      elim (fresh_actions s.plan h.is_fresh) [
        | inl e ↦ rw (e, follow) empty
        | inr (n, e) ↦
            (let s' = discard_machine H s s.machine in
              rw (e, follow) (refill_pool-Inv s' ran s'.has_image empty))
      ]

  round-Inv :
      (s : Worker H) (j : Job) (ran : List ℕ)
      → Inv H s ran
      → Inv H (round H s j).0 (add_machine H (round H s j).2 ran)
  unfolding round prepare ensure_image
  round-Inv s j ran h =
      let r = prepare H s j.deadline in
      let p = run_prepared H r j in
      follow-Inv p.0 (add_machine H p.2 ran) (
        run_prepared-Spent r j ran (
          prepare_with-Inv H (ensure_image H s j.deadline) ran j.deadline
            (image_unless-Inv H s ran j.deadline s.has_image h)))

  worker-Inv :
      (s : Worker H) (js : List Job) (ran : List ℕ)
      → Inv H s ran
      → Inv H (worker H s js ran).0 (worker H s js ran).1
  unfolding worker
  worker-Inv s [] ran h = h
  worker-Inv s (j ∷ js) ran h =
      let r = round H s j in worker-Inv r.0 js (add_machine H r.2 ran) (round-Inv s j ran h)

  start-Inv : (pool_size : ℕ) (w : World) → Inv H (start H fresh pool_size w) []
  unfolding new contains
  start-Inv pool_size w = record {
    is_fresh = refl;
    distinct = tt;
    old = λ m c. absurd (cc);
    idle = λ m e. absurd (cc);
  }

  -- A worker in fresh mode runs no two tasks on one machine, over every list of jobs, whatever the
  -- size of the pool, and whatever the machines, the guest commands and the boots do.
  pub worker-IsDistinct :
      (pool_size : ℕ) (w : World) (js : List Job)
      → IsDistinct (worker H (start H fresh pool_size w) js []).1
  worker-IsDistinct pool_size w js =
      let h = worker-Inv (start H fresh pool_size w) js [] (start-Inv pool_size w) in h.distinct
