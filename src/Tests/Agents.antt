-- ===== src/Tests/Agents.antt =====
-- The agent against a node that takes every project and ends it with exit code 2 at once.
use edge_orchestrator.Common.{ℕ, ◌≤◌, false, true, Option, none, some, [], ◌∷◌, codes}
use edge_orchestrator.Common.Int.{pos}
use edge_orchestrator.Ipc.Handler.{Reply, ResultReply, submitted, completed}
use edge_orchestrator.Agent.Plan.{WorkspaceInfo}
use edge_orchestrator.Agent.Run.{
  Environment, RunArgs, Rpc, submit_project, fetch_project_result, run,
}
use edge_orchestrator.Agent.Run.Bounded.{calls, run_bounded}

abbrev two : ResultReply
two = record {
  exit_code = pos 2;
  stdout = [];
  stderr = codes "broken";
  execution_time_ms = 5;
  executed_on = 4;
}

abbrev reply : Rpc → Option Reply
reply (submit_project p) = some (submitted 7)
reply (fetch_project_result id) = some (completed two)

-- a model that does not answer
abbrev environment : Environment
environment = record {
  World = ℕ;
  rpc = λ w m. (w, reply m);
  llm_enabled = true;
  chat_plan = λ w. (w, none);
  chat_revise = λ w p r. (w, none);
  chat_analysis = λ w r. w;
  from_str = λ b. none;
}

abbrev args : RunArgs
args = record { target_node = none; max_attempts = 3; dry_run = false }

abbrev workspace : WorkspaceInfo
workspace = record { root = codes "/tmp/p"; files = codes "main.py" ∷ [] }

run_bounded_example :
    (calls environment (run environment args workspace 0).0 ≤ 1803)
    × ((run environment args workspace 0).1 ≤ 1)
run_bounded_example = run_bounded environment args workspace 0
