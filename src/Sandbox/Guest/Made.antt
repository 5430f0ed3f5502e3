-- ===== src/Sandbox/Guest/Made.antt =====
-- The machines that there are before and after a task.
use edge_orchestrator.Common.{
  ℕ, ◌≡◌, ◌∙◌, refl, inl, inr, Bool, true, false, Option, none, some, List, [], ◌∷◌, ◌++◌, Bytes,
  codes, Bool-cases,
}
use edge_orchestrator.Types.Project.{ProjectSpec}
use edge_orchestrator.Sandbox.Policy.{phase_budget, upload, build, run, success}
use edge_orchestrator.Sandbox.Guest.{
  Host, Output, shell, or_root, upload_project, end_run, run_phase, end_build, build_phase,
  after_upload, execute_on_vm,
}

module _ (H : Host) where
  open H use {World, made, now, exec}

  made-end_run :
      (start : ℕ) (a b : Bytes) (r : World × Option Output)
      → made (end_run H start a b r).0 ≡ made r.0
  unfolding end_run
  made-end_run start a b (w, none) = refl
  made-end_run start a b (w, some o) = refl

  made-run_phase :
      (w : World) (m : ℕ) (spec : ProjectSpec) (deadline start : ℕ) (a b : Bytes)
      → made (run_phase H w m spec deadline start a b).0 ≡ made w
  unfolding run_phase
  made-run_phase w m spec deadline start a b =
      let budget : Option ℕ = some (phase_budget deadline (now w) run) in
      made-end_run start a b (exec w m (shell spec.work_dir spec.run_cmd) budget)
      ∙ H.made-exec w m (shell spec.work_dir spec.run_cmd) budget

  made-end_build :
      (m : ℕ) (spec : ProjectSpec) (deadline start : ℕ) (r : World × Option Output)
      → made (end_build H m spec deadline start r).0 ≡ made r.0
  unfolding end_build
  made-end_build m spec deadline start (w, none) = refl
  made-end_build m spec deadline start (w, some b) = elim (Bool-cases (success b.status)) [
    | inl good ↦ rw good (made-run_phase w m spec deadline start b.stdout b.stderr)
    | inr bad ↦ rw bad refl
  ]

  made-build_phase :
      (w : World) (m : ℕ) (spec : ProjectSpec) (deadline start : ℕ) (cmd : List Bytes)
      → spec.build_cmd ≡ cmd
      → made (build_phase H w m spec deadline start).0 ≡ made w
  unfolding build_phase
  made-build_phase w m spec deadline start [] e =
      rw (e, build_phase) (made-run_phase w m spec deadline start [] [])
  made-build_phase w m spec deadline start (c ∷ cs) e =
      let budget : Option ℕ = some (phase_budget deadline (now w) build) in
      rw (e, build_phase)
        (made-end_build m spec deadline start (exec w m (shell spec.work_dir (c ∷ cs)) budget)
          ∙ H.made-exec w m (shell spec.work_dir (c ∷ cs)) budget)

  made-after_upload :
      (m : ℕ) (spec : ProjectSpec) (deadline start : ℕ) (r : World × Bool)
      → made (after_upload H m spec deadline start r).0 ≡ made r.0
  unfolding after_upload
  made-after_upload m spec deadline start (w, true) =
      made-build_phase w m spec deadline start spec.build_cmd refl
  made-after_upload m spec deadline start (w, false) = refl

  made-upload_project :
      (w : World) (m : ℕ) (spec : ProjectSpec) (deadline : ℕ) (dir : Option Bytes)
      → spec.local_project_dir ≡ dir
      → made (upload_project H w m spec deadline).0 ≡ made w
  unfolding upload_project
  made-upload_project w m spec deadline none e = rw (e, upload_project) refl
  made-upload_project w m spec deadline (some dir) e = elim (Bool-cases (H.is_dir w dir)) [
    | inl there ↦
        rw (e, upload_project)
          (rw there (
            H.made-upload_dir w m dir (or_root H (H.parent spec.work_dir))
              (phase_budget deadline (now w) upload)))
    | inr missing ↦ rw (e, upload_project) (rw missing refl)
  ]

  pub made-execute_on_vm :
      (w : World) (m : ℕ) (spec : ProjectSpec) (deadline : ℕ)
      → made (execute_on_vm H w m spec deadline).0 ≡ made w
  unfolding execute_on_vm
  made-execute_on_vm w m spec deadline =
      let clean = codes "rm -rf " ++ spec.work_dir in
      let w' = (exec w m clean none).0 in
      made-after_upload m spec deadline (now w) (upload_project H w' m spec deadline)
      ∙ made-upload_project w' m spec deadline spec.local_project_dir refl
      ∙ H.made-exec w m clean none
