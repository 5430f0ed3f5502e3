-- ===== src/Sandbox/Policy.antt =====
-- crates/sandbox/src/qlean.rs: the lifecycle of the machine that is configured, the custom image,
-- the budgets of a task's phases, and the exit code of a guest command.
use edge_orchestrator.Common.{
  ℕ, ◌+◌, ◌-◌, ◌*◌, ◌/◌, ◌≤◌, Bool, true, false, not, ◌||◌, Option, none, some, [], ◌∷◌, Bytes,
  codes, leb, ltb, length, arith, if◌then◌else◌,
}
use edge_orchestrator.Common.Int.{ℤ, pos, negsuc}
use edge_orchestrator.Common.Text.{
  trim, to_ascii_lowercase, is_one_of, after_first, is_hexdigit, all_chars,
}
use edge_orchestrator.Types.{configuration}
use edge_orchestrator.Raft.Storage.Interfaces.{Result, ok, err}
use edge_orchestrator.Sandbox.{min}

pub data VmMode : Type 0 where
  reuse fresh : VmMode

pub mode_of : Bytes → Result VmMode
mode_of s =
    if is_one_of s ([] ∷ codes "reuse" ∷ codes "warm" ∷ [])
    then ok reuse
    else if is_one_of s (codes "fresh" ∷ codes "per-task" ∷ codes "isolated" ∷ [])
    then ok fresh
    else err configuration

-- `VmMode::parse`
unfoldable pub parse : Bytes → Result VmMode
unfolding mode_of
parse raw = mode_of (to_ascii_lowercase (trim raw))

abbrev pub allows_reuse : VmMode → Bool
allows_reuse reuse = true
allows_reuse fresh = false

pub record ImageTemplate : Type 0 where
  pub source : Bytes
  pub digest : Bytes

-- `.map(str::trim).filter(|s| !s.is_empty())`
abbrev pub present : Option Bytes → Option Bytes
present none = none
present (some s) = elim (trim s) [ [] ↦ none | c ∷ t ↦ some (c ∷ t) ]

-- the digest, with what follows its first colon: 58 is the colon
pub with_digest : Bytes → Bytes → Option Bytes → Result (Option ImageTemplate)
with_digest source digest none = err configuration
with_digest source digest (some hex) =
    if ltb (length hex) 32 || not (all_chars is_hexdigit hex)
    then err configuration
    else ok (some (record { source = source; digest = digest }))

pub template_of : Option Bytes → Option Bytes → Result (Option ImageTemplate)
unfolding with_digest
template_of none none = ok none
template_of (some source) none = err configuration
template_of none (some digest) = err configuration
template_of (some source) (some digest) = with_digest source digest (after_first 58 digest)

-- `ImageTemplate::from_config`
unfoldable pub from_config : Option Bytes → Option Bytes → Result (Option ImageTemplate)
unfolding template_of
from_config source digest = template_of (present source) (present digest)

-- A `Duration` and an `Instant` are numbers of nanoseconds.
abbrev pub secs : ℕ → ℕ
secs n = n * 1_000_000_000

pub data PhaseBudget : Type 0 where
  image boot upload build run : PhaseBudget

abbrev pub share : PhaseBudget → ℕ → ℕ
share image remaining = remaining / 3
share boot remaining = remaining / 2
share upload remaining = remaining
share build remaining = remaining
share run remaining = remaining - secs 5

-- `IMAGE_PREPARE_TIMEOUT`, `BOOT_TIMEOUT`, `UPLOAD_TIMEOUT`, and 1800 seconds
abbrev pub ceiling : PhaseBudget → ℕ
ceiling image = secs 300
ceiling boot = secs 600
ceiling upload = secs 300
ceiling build = secs 1800
ceiling run = secs 1800

abbrev pub max : ℕ → ℕ → ℕ
max a b = if leb a b then b else a

-- `deadline.saturating_duration_since(now)` is `deadline - now`, which stops at 0.
unfoldable pub phase_budget : ℕ → ℕ → PhaseBudget → ℕ
phase_budget deadline now phase = max (min (share phase (deadline - now)) (ceiling phase)) (secs 1)

-- Whatever the deadline, a phase gets at least a second, at most its ceiling, and no more than what
-- is left before the deadline or a second, where less is left.
pub phase_budget_bounds :
    (deadline now : ℕ) (phase : PhaseBudget)
    → (secs 1 ≤ phase_budget deadline now phase)
      × (phase_budget deadline now phase ≤ ceiling phase)
      × (phase_budget deadline now phase ≤ max (deadline - now) (secs 1))
unfolding phase_budget
phase_budget_bounds deadline now image = (ground arith, ground arith, ground arith)
phase_budget_bounds deadline now boot = (ground arith, ground arith, ground arith)
phase_budget_bounds deadline now upload = (ground arith, ground arith, ground arith)
phase_budget_bounds deadline now build = (ground arith, ground arith, ground arith)
phase_budget_bounds deadline now run = (ground arith, ground arith, ground arith)

-- `ExitStatus`: a process exits with a code, or a signal ends it.
pub record ExitStatus : Type 0 where
  pub code : Option ℤ
  pub signal : Option ℕ

pub exit_code_of : ExitStatus → ℤ
exit_code_of s = elim s.code [
  | some c ↦ c
  | none ↦ elim s.signal [ some n ↦ pos (128 + n) | none ↦ pos 1 ]
]

-- `status.success()`
pub success : ExitStatus → Bool
success s = elim s.code [ none ↦ false | some c ↦ elim c [ pos n ↦ leb n 0 | negsuc n ↦ false ] ]

-- `spec.timeout_ms.max(1000)`, from now on
abbrev pub deadline_of : ℕ → ℕ → ℕ
deadline_of now timeout_ms = now + max timeout_ms 1000 * 1_000_000
