-- ===== src/Sandbox/Guest.antt =====
-- crates/sandbox/src/qlean.rs: what one task does on a booted machine. The crate qlean, the clock and
-- std::path are the record `Host`; a machine is a number, and a budget that ran out is a failure.
pub mod Made
use edge_orchestrator.Common.{
  ℕ, ◌+◌, ◌-◌, ◌/◌, ◌≡◌, Bool, true, false, Option, none, some, List, [], ◌∷◌, ◌++◌, Bytes, codes,
  contains, nat_eq, if◌then◌else◌,
}
use edge_orchestrator.Common.Int.{ℤ, pos}
use edge_orchestrator.Common.Text.{join}
use edge_orchestrator.Types.{CoreError, sandbox_execution}
use edge_orchestrator.Types.Project.{ProjectSpec, ExecutionResult}
use edge_orchestrator.Raft.Storage.Interfaces.{Result, ok, err}
use edge_orchestrator.Sandbox.Policy.{
  phase_budget, upload, build, run, ExitStatus, exit_code_of, success,
}

-- what `exec` returns of a command that ended
pub record Output : Type 0 where
  pub status : ExitStatus
  pub stdout : Bytes
  pub stderr : Bytes

-- `made` is every machine that was created; a new one is none of them, and nothing else makes one.
pub record Host : Type 1 where
  pub World : Type 0
  pub now : World → ℕ
  pub made : World → List ℕ
  -- `Image::new` within a budget
  pub image_new : World → ℕ → World × Bool
  pub machine_new : World → ℕ → World × Option ℕ
  pub init : World → ℕ → ℕ → World × Bool
  pub is_running : World → ℕ → World × Bool
  pub shutdown : World → ℕ → World × Bool
  -- a command, without a limit or within a budget
  pub exec : World → ℕ → Bytes → Option ℕ → World × Option Output
  pub upload_dir : World → ℕ → Bytes → Bytes → ℕ → World × Bool
  pub is_dir : World → Bytes → Bool
  pub parent : Bytes → Option Bytes
  pub made-image_new : (w : World) (b : ℕ) → made (image_new w b).0 ≡ made w
  pub made-init : (w : World) (m b : ℕ) → made (init w m b).0 ≡ made w
  pub made-is_running : (w : World) (m : ℕ) → made (is_running w m).0 ≡ made w
  pub made-shutdown : (w : World) (m : ℕ) → made (shutdown w m).0 ≡ made w
  pub made-exec : (w : World) (m : ℕ) (c : Bytes) (b : Option ℕ) → made (exec w m c b).0 ≡ made w
  pub made-upload_dir :
      (w : World) (m : ℕ) (d t : Bytes) (b : ℕ) → made (upload_dir w m d t b).0 ≡ made w
  pub made-machine_new :
      (w : World) (b m : ℕ) → (machine_new w b).1 ≡ some m → made (machine_new w b).0 ≡ m ∷ made w
  pub machine_new_failed :
      (w : World) (b : ℕ) → (machine_new w b).1 ≡ none → made (machine_new w b).0 ≡ made w
  pub machine_new_fresh :
      (w : World) (b m : ℕ) → (machine_new w b).1 ≡ some m → contains m (made w) ≡ false

-- `format!("cd {work} && {}", cmd.join(" "))`
abbrev pub shell : Bytes → List Bytes → Bytes
shell work cmd = codes "cd " ++ work ++ codes " && " ++ join (codes " ") cmd

module _ (H : Host) where
  open H use {World, now, exec}

  -- `start.elapsed().as_millis()`
  abbrev pub elapsed_ms : World → ℕ → ℕ
  elapsed_ms w start = (now w - start) / 1_000_000

  abbrev pub or_root : Option Bytes → Bytes
  or_root none = codes "/root"
  or_root (some p) = p

  pub upload_project : World → ℕ → ProjectSpec → ℕ → World × Bool
  upload_project w m spec deadline = elim spec.local_project_dir [
    | none ↦ (w, true)
    | some dir ↦
        if H.is_dir w dir
        then H.upload_dir w m dir (or_root (H.parent spec.work_dir))
            (phase_budget deadline (now w) upload)
        else (w, true)
  ]

  abbrev pub result : World → ℕ → ℤ → Bytes → Bytes → ExecutionResult
  result w start exit_code stdout stderr = record {
    exit_code = exit_code;
    stdout = stdout;
    stderr = stderr;
    execution_time_ms = elapsed_ms w start;
    peak_memory_bytes = 0;
    result_hash = none;
  }

  -- the run, after the outputs of the build
  pub end_run : ℕ → Bytes → Bytes → World × Option Output → World × Result ExecutionResult
  end_run start stdout stderr (w, none) = (w, err sandbox_execution)
  end_run start stdout stderr (w, some r) =
      (w, ok (result w start (exit_code_of r.status) (stdout ++ r.stdout) (stderr ++ r.stderr)))

  pub run_phase : World → ℕ → ProjectSpec → ℕ → ℕ → Bytes → Bytes → World × Result ExecutionResult
  unfolding end_run
  run_phase w m spec deadline start stdout stderr =
      end_run start stdout stderr
        (exec w m (shell spec.work_dir spec.run_cmd) (some (phase_budget deadline (now w) run)))

  -- A build that fails ends the task with its own exit code.
  pub end_build : ℕ → ProjectSpec → ℕ → ℕ → World × Option Output → World × Result ExecutionResult
  unfolding run_phase
  end_build m spec deadline start (w, none) = (w, err sandbox_execution)
  end_build m spec deadline start (w, some b) =
      if success b.status
      then run_phase w m spec deadline start b.stdout b.stderr
      else (w, ok (result w start (exit_code_of b.status) b.stdout b.stderr))

  pub build_phase : World → ℕ → ProjectSpec → ℕ → ℕ → World × Result ExecutionResult
  unfolding end_build run_phase
  build_phase w m spec deadline start = elim spec.build_cmd [
    | [] ↦ run_phase w m spec deadline start [] []
    | c ∷ cs ↦
        end_build m spec deadline start
          (exec w m (shell spec.work_dir (c ∷ cs)) (some (phase_budget deadline (now w) build)))
  ]

  pub after_upload : ℕ → ProjectSpec → ℕ → ℕ → World × Bool → World × Result ExecutionResult
  unfolding build_phase
  after_upload m spec deadline start (w, true) = build_phase w m spec deadline start
  after_upload m spec deadline start (w, false) = (w, err sandbox_execution)

  unfoldable pub execute_on_vm : World → ℕ → ProjectSpec → ℕ → World × Result ExecutionResult
  unfolding after_upload upload_project
  execute_on_vm w m spec deadline =
      let w' = (exec w m (codes "rm -rf " ++ spec.work_dir) none).0 in
      after_upload m spec deadline (now w) (upload_project w' m spec deadline)
