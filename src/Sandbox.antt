-- ===== src/Sandbox.antt =====
-- crates/sandbox/src/pool.rs: how many virtual machines are kept ready; its child
-- modules model the machines themselves.
pub mod Bounds
pub mod Policy
pub mod Guest
pub mod Worker
use edge_orchestrator.Common.{
  ℕ, ◌-◌, Bool, true, false, not, ◌&&◌, List, [], ◌∷◌, ltb, leb, ◌==◌, if◌then◌else◌,
}

pub data PoolAction : Type 0 where
  keep discard : PoolAction
  refill : ℕ → PoolAction

pub record PoolPlan : Type 0 where
  pub reuse : Bool
  pub target : ℕ

-- `MAX_POOL_TARGET`
abbrev pub max_pool_target : ℕ
max_pool_target = 8

abbrev pub min : ℕ → ℕ → ℕ
min a b = if leb a b then a else b

pub new : Bool → ℕ → PoolPlan
new reuse configured_size = record {
  reuse = reuse;
  target = if reuse then 0 else min configured_size max_pool_target;
}

pub after_job : PoolPlan → List PoolAction
after_job p =
    if p.reuse
    then keep ∷ []
    else if p.target == 0
    then discard ∷ []
    else discard ∷ refill p.target ∷ []

-- `saturating_sub`
pub boots_needed : PoolPlan → ℕ → ℕ
boots_needed p idle = p.target - idle

pub take_from_pool_when_available : PoolPlan → Bool
take_from_pool_when_available p = not p.reuse && ltb 0 p.target
