-- ===== src/Project/Lifecycle.antt =====
-- A task as the master sees it, over every run of sends, of entries that follow them, and of results.
use edge_orchestrator.Common.{
  ℕ, ◌≡◌, ◌∙◌, refl, ap, inl, inr, Bool, true, false, Option, none, some, List, [], ◌∷◌, Bytes,
  Option-cases, ℕ_discrete, nat_eq, ite, if_pos, if_neg, contains,
}
use edge_orchestrator.Common.HashMap
use edge_orchestrator.Common.Channel.{Channel}
use edge_orchestrator.Types.{TaskId}
use edge_orchestrator.Types.Project.{ProjectResult, ProjectSnapshot}
use edge_orchestrator.P2p.Messages.{PeerId, SwarmCommand, send_project_task}
use edge_orchestrator.Storage.Store.Interfaces.{Result, ok, err, panic, FileSystem, Format, Digest}
use edge_orchestrator.Project.Snapshot.{snapshot_from_dir}
use edge_orchestrator.Project.Client.{
  ProjectClient, Submission, task_of, dispatched, done, route, dispatch, send_local_project,
  note_dispatched, record_result,
}

-- What a client of the master is to learn of a task; an overtaken result came before the entry of
-- its task.
pub data Life : Type 0 where
  unknown : Life
  waiting : ℕ → Life
  finished : ProjectResult → Life
  overtaken : ℕ → ProjectResult → Life

-- A submission is two steps, with its `await` in between.
pub data Call : Type 0 where
  sends : Option Bytes → Submission → TaskId → Call
  notes : TaskId → ℕ → Call
  receive : ProjectResult → ℕ → Call

pub all_but : TaskId → List TaskId → List TaskId
all_but id [] = []
all_but id (i ∷ is) = let rest = all_but id is in ite (ℕ_discrete i id) is (i ∷ rest)

module _ (F : FileSystem) (c : Format) (D : Digest) (ch : Channel SwarmCommand) where
  abbrev Client : Type 0
  Client = ProjectClient F c D ch

  -- the client, and the tasks that were sent and are not entered yet
  pub record Session : Type 0 where
    pub client : ProjectClient F c D ch
    pub in_flight : List TaskId

  abbrev sent : List TaskId → Client × Result TaskId → Session
  sent ids (cl, ok id) = record { client = cl; in_flight = id ∷ ids }
  sent ids (cl, err e) = record { client = cl; in_flight = ids }
  sent ids (cl, panic) = record { client = cl; in_flight = ids }

  abbrev noted : Session → TaskId → ℕ → Bool → Session
  noted s id now true = record {
    client = note_dispatched F c D ch s.client id now;
    in_flight = all_but id s.in_flight;
  }
  noted s id now false = s

  unfoldable pub perform : Session → Call → Session
  perform s (sends packed a id) =
      sent s.in_flight (send_local_project F c D ch s.client packed a id)
  perform s (notes id now) = noted s id now (contains id s.in_flight)
  perform s (receive result now) = record s { client = record_result F c D ch s.client result now }

  unfoldable pub run : Session → List Call → Session
  unfolding perform
  run s [] = s
  run s (k ∷ ks) = run (perform s k) ks

  -- what the entry of a task does to its life
  abbrev pub entered : ℕ → Life → Life
  entered now unknown = waiting now
  entered now (waiting since) = waiting now
  entered now (finished r) = overtaken now r
  entered now (overtaken since r) = overtaken now r

  abbrev entered_if : Bool → TaskId → ℕ → TaskId → Life → Life
  entered_if true task_id now id l = ite (ℕ_discrete task_id id) (entered now l) l
  entered_if false task_id now id l = l

  -- A send alone enters nothing; the entry of a task that was sent makes it wait; a result finishes
  -- its task.
  unfoldable pub live : Session → Call → TaskId → Life → Life
  live s (sends packed a task_id) id l = l
  live s (notes task_id now) id l = entered_if (contains task_id s.in_flight) task_id now id l
  live s (receive result now) id l = ite (ℕ_discrete result.task_id id) (finished result) l

  unfoldable pub life : Session → List Call → TaskId → Life → Life
  unfolding live
  life s [] id l = l
  life s (k ∷ ks) id l = life (perform s k) ks id (live s k id l)

  abbrev pub Follows : Client → TaskId → Life → Type 0
  Follows cl id unknown = (HashMap.get id cl.tasks ≡ none) × (HashMap.get id cl.results ≡ none)
  Follows cl id (waiting since) =
      (HashMap.get id cl.tasks ≡ some (dispatched, since)) × (HashMap.get id cl.results ≡ none)
  Follows cl id (finished result) =
      (at : ℕ) × (HashMap.get id cl.tasks ≡ some (done, at))
      × (HashMap.get id cl.results ≡ some result)
  Follows cl id (overtaken since result) =
      (HashMap.get id cl.tasks ≡ some (dispatched, since))
      × (HashMap.get id cl.results ≡ some result)

  -- Only the two entries of the task matter.
  Follows-moved :
      (cl cl' : Client) (id : TaskId) (l : Life)
      → HashMap.get id cl'.tasks ≡ HashMap.get id cl.tasks
      → HashMap.get id cl'.results ≡ HashMap.get id cl.results
      → Follows cl id l
      → Follows cl' id l
  Follows-moved cl cl' id unknown t r h = (t ∙ h.0, r ∙ h.1)
  Follows-moved cl cl' id (waiting since) t r h = (t ∙ h.0, r ∙ h.1)
  Follows-moved cl cl' id (finished result) t r h = (h.0, t ∙ h.1, r ∙ h.2)
  Follows-moved cl cl' id (overtaken since result) t r h = (t ∙ h.0, r ∙ h.1)

  -- The dispatch touches the channel only.
  dispatch_same :
      (cl : Client) (a : Submission) (task_id : TaskId) (r : Result (ProjectSnapshot × PeerId))
      → ((dispatch F c D ch cl a task_id r).0.tasks ≡ cl.tasks)
        × ((dispatch F c D ch cl a task_id r).0.results ≡ cl.results)
  unfolding dispatch
  dispatch_same cl a task_id (err e) = (refl, refl)
  dispatch_same cl a task_id panic = (refl, refl)
  dispatch_same cl a task_id (ok (snapshot, peer_id)) =
      elim (Option-cases
        (ch.send cl.swarm_commands (send_project_task peer_id (task_of a task_id snapshot)))) [
          | inl refused ↦ rw (refused, dispatch) (refl, refl)
          | inr (tx, taken) ↦ rw (taken, dispatch) (refl, refl)
        ]

  sent-Follows :
      (cl : Client) (ids : List TaskId) (d : Client × Result TaskId) (id : TaskId) (l : Life)
      → d.0.tasks ≡ cl.tasks
      → d.0.results ≡ cl.results
      → Follows cl id l
      → Follows (sent ids d).client id l
  sent-Follows cl ids (cl', ok i) id l t r h =
      Follows-moved cl cl' id l (ap (HashMap.get id) t) (ap (HashMap.get id) r) h
  sent-Follows cl ids (cl', err e) id l t r h =
      Follows-moved cl cl' id l (ap (HashMap.get id) t) (ap (HashMap.get id) r) h
  sent-Follows cl ids (cl', panic) id l t r h =
      Follows-moved cl cl' id l (ap (HashMap.get id) t) (ap (HashMap.get id) r) h

  sends-Follows :
      (s : Session) (packed : Option Bytes) (a : Submission) (task_id id : TaskId) (l : Life)
      → Follows s.client id l
      → Follows
          (sent s.in_flight (send_local_project F c D ch s.client packed a task_id)).client
          id
          l
  unfolding send_local_project
  sends-Follows s packed a task_id id l h =
      let cl : Client = record (s.client) {
        store = (snapshot_from_dir F c D s.client.store packed).0;
      } in
      let r = route F c D ch cl a.target (snapshot_from_dir F c D s.client.store packed).1 in
      let (t, q) = dispatch_same cl a task_id r in
      sent-Follows s.client s.in_flight (dispatch F c D ch cl a task_id r) id l t q h

  -- An entry of the task itself.
  entered-Follows :
      (cl cl' : Client) (id : TaskId) (now : ℕ) (l : Life)
      → HashMap.get id cl'.tasks ≡ some (dispatched, now)
      → HashMap.get id cl'.results ≡ HashMap.get id cl.results
      → Follows cl id l
      → Follows cl' id (entered now l)
  entered-Follows cl cl' id now unknown t r h = (t, r ∙ h.1)
  entered-Follows cl cl' id now (waiting since) t r h = (t, r ∙ h.1)
  entered-Follows cl cl' id now (finished result) t r h = (t, r ∙ h.2)
  entered-Follows cl cl' id now (overtaken since result) t r h = (t, r ∙ h.1)

  notes-Follows :
      (s : Session) (task_id : TaskId) (now : ℕ) (b : Bool) (id : TaskId) (l : Life)
      → Follows s.client id l
      → Follows (noted s task_id now b).client id (entered_if b task_id now id l)
  unfolding note_dispatched
  notes-Follows s task_id now false id l h = h
  notes-Follows s task_id now true id l h =
      let cl' : Client = note_dispatched F c D ch s.client task_id now in
      elim (ℕ_discrete task_id id) [
        | yes here ↦ rw (if_pos (ℕ_discrete task_id id) here) (
            entered-Follows s.client cl' id now l
              (HashMap.get-insert_eq (dispatched, now) s.client.tasks here) refl h)
        | no ne ↦ rw (if_neg (ℕ_discrete task_id id) ne) (
            Follows-moved s.client cl' id l
              (HashMap.get-insert_ne (dispatched, now) s.client.tasks ne) refl h)
      ]

  received-Follows :
      (cl : Client) (id : TaskId) (l : Life) (r : ProjectResult) (now : ℕ)
      → Follows cl id l
      → Follows (record_result F c D ch cl r now) id (ite (ℕ_discrete r.task_id id) (finished r) l)
  unfolding record_result
  received-Follows cl id l r now h = elim (ℕ_discrete r.task_id id) [
    | yes here ↦ rw (if_pos (ℕ_discrete r.task_id id) here) (
      now,
      HashMap.get-insert_eq (done, now) cl.tasks here,
      HashMap.get-insert_eq r cl.results here,
    )
    | no ne ↦ rw (if_neg (ℕ_discrete r.task_id id) ne) (
        Follows-moved cl (record_result F c D ch cl r now) id l
          (HashMap.get-insert_ne (done, now) cl.tasks ne) (HashMap.get-insert_ne r cl.results ne) h)
  ]

  -- The client's two maps follow the life of every task, over every run.
  pub run-Follows :
      (s : Session) (ks : List Call) (id : TaskId) (l : Life)
      → Follows s.client id l
      → Follows (run s ks).client id (life s ks id l)
  unfolding run life live perform
  run-Follows s [] id l h = h
  run-Follows s (sends packed a task_id ∷ ks) id l h =
      run-Follows (perform s (sends packed a task_id)) ks id l
        (sends-Follows s packed a task_id id l h)
  run-Follows s (notes task_id now ∷ ks) id l h =
      run-Follows (perform s (notes task_id now)) ks id (live s (notes task_id now) id l)
        (notes-Follows s task_id now (contains task_id s.in_flight) id l h)
  run-Follows s (receive r now ∷ ks) id l h =
      run-Follows (perform s (receive r now)) ks id (live s (receive r now) id l)
        (received-Follows s.client id l r now h)
