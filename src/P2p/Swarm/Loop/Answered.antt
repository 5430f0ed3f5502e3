-- ===== src/P2p/Swarm/Loop/Answered.antt =====
-- The answers to project tasks, over every run of the loop.
use mathlib.Core.List.{Memᴰ}
use edge_orchestrator.Common.{
  ℕ, ◌≡◌, ◌≢◌, ◌⊎◌, ◌∙◌, refl, sym, ap, inl, inr, Bool, true, false, Option, none, some, List, [],
  ◌∷◌, ◌++◌, arith, contains, remove_at, ℕ_discrete, nat_eq, if◌then◌else◌,
}
use edge_orchestrator.Common.Int.{pos}
use edge_orchestrator.Common.HashMap
use edge_orchestrator.Common.HashMap.{HashMap}
use edge_orchestrator.Common.Channel.{Channel}
use edge_orchestrator.Types.{TaskId}
use edge_orchestrator.Types.Project.{ProjectTask, ProjectResult}
use edge_orchestrator.P2p.Messages.{PeerId, Event}
use edge_orchestrator.P2p.Swarm.{
  Action, send_response, project_response, request, Job, JobEnd, ran, broke, panicked, job_result,
  handle_project_exchange, project_failure, rejection,
}
use edge_orchestrator.P2p.Swarm.Loop.{
  Setup, Turn, swarm_turn, outcome_turn, command_turn, job_turn, Outcome, job_at, do_handled,
  put_project, do_project, handle_behaviour_event, on_swarm_event, on_outcome, end_job, queue,
  deliver, turn, after_break, step, run, answer_action, command_action,
}
use edge_orchestrator.P2p.Swarm.Loop.Jobs.{
  job_ids, outcome_ids, IsNamed, mem-append_end, IsNamed-append, job_ids-append, outcome_ids-append,
  job_removed,
}
use edge_orchestrator.P2p.Swarm.Loop.Kept.{
  Swarm, IsAnswered, Kept, Fair, IsFair, arrival, Good, still_answered, handled-Good, swarm-Good,
}

some_result : {q r : ProjectResult} → some q ≡ some r → q ≡ r
some_result e = cc

module _ (ch : Channel Event) (setup : Setup) where
  answer_sent :
      (id t : TaskId) (k : ℕ) (pending : HashMap TaskId ℕ) (r : ProjectResult) (log : List Action)
      → id ≡ t
      → HashMap.get t pending ≡ some k
      → Memᴰ
          (send_response k (project_response r))
          (log ++ answer_action ch setup (HashMap.get id pending) r)
  answer_sent id t k pending r log here parked =
      rw here (rw parked (mem-append_end (send_response k (project_response r)) log))

  passed :
      (t : TaskId) (o : Outcome) (rest : List Outcome)
      → o.task_id ≢ t
      → contains t (outcome_ids (o ∷ rest)) ≡ true
      → contains t (outcome_ids rest) ≡ true
  unfolding contains
  passed t o rest ne h = ground (arith, ne)

  outcome-Good :
      (l : Swarm ch setup) (t : TaskId) (k : ℕ) (os : List Outcome)
      → l.outcomes ≡ os
      → Good ch setup l t k
      → Good ch setup (on_outcome ch setup l os) t k
  unfolding on_outcome contains
  outcome-Good l t k [] e g = g
  outcome-Good l t k (o ∷ rest) e (named, inr a) = (
    (rw e at named).1,
    inr (
        still_answered ch setup l t k
          (answer_action ch setup (HashMap.get o.task_id l.pending) o.result) a),
  )
  outcome-Good l t k (o ∷ rest) e (named, inl (parked, due)) = (
    (rw e at named).1,
    elim (ℕ_discrete o.task_id t) [
      | yes here ↦ inr (
        o.result,
        (rw e at named).0 ∙ here,
        answer_sent o.task_id t k l.pending o.result l.log here parked,
      )
      | no ne ↦ inl (
        HashMap.get-remove_ne l.pending ne ∙ parked,
        (elim due [ inl runs ↦ inl runs | inr queued ↦ inr (passed t o rest ne (rw e at queued)) ]),
      )
    ],
  )

  job_result-IsNamed :
      (t : TaskId) (l : Swarm ch setup) (i : ℕ) (e : JobEnd) (j : Job) (r : ProjectResult)
      → job_at l.jobs i ≡ some j
      → Fair ch setup t l (job_turn i e)
      → job_result j.task e ≡ some r
      → r.task_id ≡ j.task.task_id
  unfolding job_result
  job_result-IsNamed t l i (ran q) j r at fair is =
      ap (λ (x : ProjectResult). x.task_id) (some_result (sym is)) ∙ fair j at
  job_result-IsNamed t l i (broke msg) j r at fair is =
      ap (λ (x : ProjectResult). x.task_id) (some_result (sym is))
  job_result-IsNamed t l i panicked j r at fair is = absurd (cc)

  no_result :
      (t : TaskId) (l : Swarm ch setup) (i : ℕ) (e : JobEnd) (j : Job)
      → job_at l.jobs i ≡ some j
      → Fair ch setup t l (job_turn i e)
      → job_result j.task e ≡ none
      → j.task.task_id ≢ t
  unfolding job_result
  no_result t l i (ran q) j at fair is = absurd (cc)
  no_result t l i (broke msg) j at fair is = absurd (cc)
  no_result t l i panicked j at fair is = fair j at

  queue-IsNamed :
      (b : Bool) (os : List Outcome) (o : Outcome)
      → IsNamed os
      → o.result.task_id ≡ o.task_id
      → IsNamed (queue ch setup b os o)
  queue-IsNamed true os o named e = IsNamed-append os o named e
  queue-IsNamed false os o named e = named

  end_moves :
      (l : Swarm ch setup) (t : TaskId) (i : ℕ) (j : Job) (r : ProjectResult) (b : Bool)
      → b ≡ true
      → job_at l.jobs i ≡ some j
      → (contains t (job_ids l.jobs) ≡ true) ⊎ (contains t (outcome_ids l.outcomes) ≡ true)
      → (contains t (job_ids (remove_at i l.jobs)) ≡ true)
        ⊎ (contains t (
              outcome_ids
                (queue ch setup b l.outcomes (record { task_id = j.task.task_id; result = r })))
            ≡ true)
  unfolding contains
  end_moves l t i j r false on at due = absurd (cc)
  end_moves l t i j r true on at (inr queued) = inr (
      ground (
        arith,
        outcome_ids-append t l.outcomes (record { task_id = j.task.task_id; result = r }),
        queued,
      ))
  end_moves l t i j r true on at (inl runs) = elim (job_removed t l.jobs i j at runs) [
    | inl rest ↦ inl rest
    | inr gone ↦ inr (
        ground (
          arith,
          outcome_ids-append t l.outcomes (record { task_id = j.task.task_id; result = r }),
          gone,
        ))
  ]

  delivered-Good :
      (l : Swarm ch setup) (t : TaskId) (k : ℕ) (i : ℕ) (e : JobEnd) (j : Job)
      (o : Option ProjectResult)
      → job_result j.task e ≡ o
      → l.running ≡ true
      → job_at l.jobs i ≡ some j
      → Fair ch setup t l (job_turn i e)
      → Good ch setup l t k
      → Good ch setup (deliver ch setup (record l { jobs = remove_at i l.jobs }) j o) t k
  unfolding deliver
  delivered-Good l t k i e j (some r) is on at fair (named, kept) = (
    queue-IsNamed l.running l.outcomes (record { task_id = j.task.task_id; result = r }) named
        (job_result-IsNamed t l i e j r at fair is),
    elim kept [
      | inl (parked, due) ↦ inl (parked, end_moves l t i j r l.running on at due)
      | inr a ↦ inr a
    ],
  )
  delivered-Good l t k i e j none is on at fair (named, inr a) = (named, inr a)
  delivered-Good l t k i e j none is on at fair (named, inl (parked, inr queued)) =
      (named, inl (parked, inr queued))
  delivered-Good l t k i e j none is on at fair (named, inl (parked, inl runs)) = (
    named,
    elim (job_removed t l.jobs i j at runs) [
      | inl rest ↦ inl (parked, inl rest)
      | inr gone ↦ absurd (no_result t l i e j at fair is gone)
    ],
  )

  ended-Good :
      (l : Swarm ch setup) (t : TaskId) (k : ℕ) (i : ℕ) (e : JobEnd) (o : Option Job)
      → job_at l.jobs i ≡ o
      → l.running ≡ true
      → Fair ch setup t l (job_turn i e)
      → Good ch setup l t k
      → Good ch setup (end_job ch setup l i e o) t k
  unfolding end_job
  ended-Good l t k i e none at on fair g = g
  ended-Good l t k i e (some j) at on fair g =
      delivered-Good l t k i e j (job_result j.task e) refl on at fair g

  turn-Good :
      (l : Swarm ch setup) (t : TaskId) (k : ℕ) (u : Turn)
      → l.running ≡ true
      → Fair ch setup t l u
      → Good ch setup l t k
      → Good ch setup (turn ch setup l u) t k
  unfolding turn
  turn-Good l t k (swarm_turn none) on fair g = g
  turn-Good l t k (swarm_turn (some e)) on fair g = swarm-Good ch setup l t k e fair g
  turn-Good l t k outcome_turn on fair g = outcome-Good l t k l.outcomes refl g
  turn-Good l t k (command_turn none) on fair g = g
  turn-Good l t k (command_turn (some cmd)) on fair g =
      handled-Good ch setup l t k (command_action ch setup cmd ∷ [], []) g
  turn-Good l t k (job_turn i e) on fair g = ended-Good l t k i e (job_at l.jobs i) refl on fair g

  -- The loop is good as long as it runs.
  abbrev Live : Swarm ch setup → TaskId → ℕ → Type 0
  Live l t k = l.running ≡ true → Good ch setup l t k

  running-deliver :
      (l : Swarm ch setup) (j : Job) (o : Option ProjectResult)
      → (deliver ch setup l j o).running ≡ l.running
  unfolding deliver
  running-deliver l j none = refl
  running-deliver l j (some r) = refl

  running-end_job :
      (l : Swarm ch setup) (i : ℕ) (e : JobEnd) (o : Option Job)
      → (end_job ch setup l i e o).running ≡ l.running
  unfolding end_job
  running-end_job l i e none = refl
  running-end_job l i e (some j) =
      running-deliver (record l { jobs = remove_at i l.jobs }) j (job_result j.task e)

  running-after_break :
      (l : Swarm ch setup) (u : Turn) → (after_break ch setup l u).running ≡ l.running
  unfolding after_break
  running-after_break l (swarm_turn e) = refl
  running-after_break l outcome_turn = refl
  running-after_break l (command_turn cmd) = refl
  running-after_break l (job_turn i e) = running-end_job l i e (job_at l.jobs i)

  chosen-Live :
      (t : TaskId) (k : ℕ) (b : Bool) (x y : Swarm ch setup)
      → (b ≡ true → Live x t k)
      → (b ≡ false → Live y t k)
      → Live (if b then x else y) t k
  chosen-Live t k true x y g h = g refl
  chosen-Live t k false x y g h = h refl

  step-Live :
      (l : Swarm ch setup) (t : TaskId) (k : ℕ) (u : Turn)
      → Fair ch setup t l u
      → Live l t k
      → Live (step ch setup l u) t k
  unfolding step
  step-Live l t k u fair g =
      chosen-Live t k l.running (turn ch setup l u) (after_break ch setup l u)
        (λ on on'. turn-Good l t k u on fair (g on))
        (λ off on. absurd (let same = running-after_break l u in cc (off, on, same)))

  run-Live :
      (l : Swarm ch setup) (t : TaskId) (k : ℕ) (us : List Turn)
      → IsFair ch setup t l us
      → Live l t k
      → Live (run ch setup l us) t k
  unfolding run
  run-Live l t k [] fair g = g
  run-Live l t k (u ∷ us) fair g =
      run-Live (step ch setup l u) t k us fair.1 (step-Live l t k u fair.0 g)

  -- The request is parked with its job, or answered at once.
  taken-Good :
      (l : Swarm ch setup) (peer : PeerId) (task : ProjectTask) (channel : ℕ) (executor : Bool)
      → IsNamed l.outcomes
      → Good ch setup
          (put_project ch setup l
            (handle_project_exchange executor l.pending (request peer task channel)))
          task.task_id
          channel
  unfolding put_project do_handled handle_project_exchange contains
  taken-Good l peer task channel true named = (
    named,
    inl (
      HashMap.get-insert_eq channel l.pending refl,
      inl (
          ground (arith, job_ids-append task.task_id l.jobs (record { peer = peer; task = task }))),
    ),
  )
  taken-Good l peer task channel false named = (
    named,
    inr (
      project_failure task (pos 101) rejection,
      refl,
      mem-append_end
          (send_response channel (project_response (project_failure task (pos 101) rejection)))
          l.log,
    ),
  )

  finished :
      (l : Swarm ch setup) (t : TaskId) (k : ℕ)
      → l.jobs ≡ []
      → l.outcomes ≡ []
      → Kept ch setup l t k
      → IsAnswered ch setup l t k
  unfolding contains
  finished l t k no_jobs no_outcomes (inl (parked, inl runs)) =
      absurd (let e = ap (λ (js : List Job). contains t (job_ids js)) no_jobs in cc (e, runs))
  finished l t k no_jobs no_outcomes (inl (parked, inr queued)) = absurd (
      let e = ap (λ (os : List Outcome). contains t (outcome_ids os)) no_outcomes in cc (e, queued))
  finished l t k no_jobs no_outcomes (inr a) = a

  -- A project task that arrives at the loop is answered, with a result that carries its id, over
  -- every run after which the loop still runs, no job runs and no outcome is queued: whether the
  -- node has an executor or not, the executor returns a result or an error, and whatever happens in
  -- between, the panic of other jobs too, as long as the task's own job does not panic, the outcomes
  -- that were queued carry results of their own tasks, no later request arrives with the id of a
  -- task that is parked, and jobs return results of their task's id.
  pub project_task_answered :
      (l : Swarm ch setup) (peer : PeerId) (task : ProjectTask) (channel : ℕ) (us : List Turn)
      → IsNamed l.outcomes
      → IsFair ch setup task.task_id (turn ch setup l (arrival ch setup peer task channel)) us
      → (run ch setup (turn ch setup l (arrival ch setup peer task channel)) us).running ≡ true
      → (run ch setup (turn ch setup l (arrival ch setup peer task channel)) us).jobs ≡ []
      → (run ch setup (turn ch setup l (arrival ch setup peer task channel)) us).outcomes ≡ []
      → IsAnswered ch setup
          (run ch setup (turn ch setup l (arrival ch setup peer task channel)) us)
          task.task_id
          channel
  unfolding turn on_swarm_event handle_behaviour_event do_project
  project_task_answered l peer task channel us named fair on no_jobs no_outcomes =
      let next = turn ch setup l (arrival ch setup peer task channel) in
      finished (run ch setup next us) task.task_id channel no_jobs no_outcomes
        (run-Live next task.task_id channel us fair
          (λ started. taken-Good l peer task channel setup.has_executor named) on).1
