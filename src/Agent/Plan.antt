-- ===== src/Agent/Plan.antt =====
-- agent/src/main.rs: the plans, by the files of the workspace or from a model's answer. What
-- serde_json finds in a text is the argument `from_str`.
use edge_orchestrator.Common.{
  ℕ, ◌==◌, Bool, true, false, not, ◌&&◌, ◌||◌, Option, none, some, List, [], ◌∷◌, ◌++◌, Bytes,
  Bytes-discrete, codes, contains, nat_eq, filter, if◌then◌else◌,
}
use mathlib.Core.List.{reverse}
use edge_orchestrator.Common.Text.{trim}
use edge_orchestrator.Agent.Install.{ensure_tool}

pub record WorkspaceInfo : Type 0 where
  pub root : Bytes
  pub files : List Bytes

pub record Plan : Type 0 where
  pub build_cmd : List Bytes
  pub run_cmd : List Bytes
  pub work_dir : Bytes

abbrev pub starts_with : Bytes → Bytes → Bool
starts_with s [] = true
starts_with [] (c ∷ p) = false
starts_with (d ∷ s) (c ∷ p) = d == c && starts_with s p

abbrev pub ends_with : Bytes → Bytes → Bool
ends_with s p = starts_with (reverse s) (reverse p)

abbrev pub is_text : Bytes → Bytes → Bool
is_text s t = elim (Bytes-discrete s t) [ yes _ ↦ true | no _ ↦ false ]

-- 47 is the slash
abbrev pub is_named : Bytes → Bytes → Bool
is_named name f = is_text f name || ends_with f (47 ∷ name)

pub has_file : List Bytes → Bytes → Bool
has_file [] name = false
has_file (f ∷ fs) name = is_named name f || has_file fs name

pub has : WorkspaceInfo → Bytes → Bool
unfolding has_file
has info name = has_file info.files name

pub find_ext : List Bytes → Bytes → Option Bytes
find_ext [] ext = none
find_ext (f ∷ fs) ext = let rest = find_ext fs ext in if ends_with f ext then some f else rest

pub first_with_ext : WorkspaceInfo → Bytes → Option Bytes
unfolding find_ext
first_with_ext info ext = find_ext info.files ext

-- the C files of the top directory
abbrev pub top_c_files : WorkspaceInfo → List Bytes
top_c_files info = filter (λ f. not (contains 47 f) && ends_with f (codes ".c")) info.files

abbrev pub one : List Bytes → Option Bytes
one (f ∷ []) = some f
one fs = none

abbrev pub then_run : Bytes → Bytes → Bytes
then_run tool cmd = ensure_tool tool ++ codes " && " ++ cmd

abbrev pub plan : List Bytes → List Bytes → Plan
plan build_cmd run_cmd = record {
  build_cmd = build_cmd;
  run_cmd = run_cmd;
  work_dir = codes "/root/project";
}

pub interpreted_plan : WorkspaceInfo → Plan
unfolding has first_with_ext
interpreted_plan info =
    if has info (codes "Makefile")
    then plan (then_run (codes "make") (codes "make") ∷ []) (codes "./app" ∷ [])
    else elim (first_with_ext info (codes ".py")) [
      | some py ↦ plan [] (then_run (codes "python3") (codes "python3 " ++ py) ∷ [])
      | none ↦
          if has info (codes "package.json")
          then plan (then_run (codes "npm") (codes "npm install") ∷ []) (codes "node index.js" ∷ [])
          else plan [] (codes "ls -la" ∷ [])
    ]

unfoldable pub heuristic_plan : WorkspaceInfo → Plan
unfolding interpreted_plan has
heuristic_plan info =
    if has info (codes "Cargo.toml")
    then plan (then_run (codes "cargo") (codes "cargo build --release") ∷ [])
        (codes "cargo run --release" ∷ [])
    else elim (one (top_c_files info)) [
      | some cfile ↦
          plan (then_run (codes "gcc") (codes "gcc " ++ cfile ++ codes " -o app") ∷ [])
            (codes "./app" ∷ [])
      | none ↦ interpreted_plan info
    ]

-- the first place of a byte, from the left
abbrev pub from_first : ℕ → Bytes → Option Bytes
from_first c [] = none
from_first c (x ∷ s) = let rest = from_first c s in if x == c then some (x ∷ s) else rest

-- up to its last place
abbrev pub up_to_last : ℕ → Bytes → Option Bytes
up_to_last c [] = none
up_to_last c (x ∷ s) = elim (up_to_last c s) [
  | some r ↦ some (x ∷ r)
  | none ↦ if x == c then some (x ∷ []) else none
]

-- From the first brace to the last one behind it, or the trimmed text; 123 and 125 are the braces.
abbrev pub cut_object : Bytes → Option Bytes → Bytes
cut_object t none = t
cut_object t (some rest) = elim (up_to_last 125 rest) [ none ↦ t | some r ↦ r ]

unfoldable pub extract_json : Bytes → Bytes
extract_json s = cut_object (trim s) (from_first 123 (trim s))

-- the fields that a plan's JSON object has
pub record RawPlan : Type 0 where
  pub build_cmd : List Bytes
  pub run_cmd : List Bytes
  pub work_dir : Option Bytes

abbrev pub or_project : Option Bytes → Bytes
or_project none = codes "/root/project"
or_project (some d) = d

-- A plan without a command to run is refused.
abbrev pub checked : RawPlan → Option Plan
checked r = elim r.run_cmd [
  | [] ↦ none
  | c ∷ cs ↦
      some (record { build_cmd = r.build_cmd; run_cmd = c ∷ cs; work_dir = or_project r.work_dir })
]

abbrev pub plan_of : Option RawPlan → Option Plan
plan_of none = none
plan_of (some r) = checked r

unfoldable pub parse_plan : (Bytes → Option RawPlan) → Bytes → Option Plan
unfolding extract_json
parse_plan from_str content = plan_of (from_str (extract_json content))
