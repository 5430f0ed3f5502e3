-- ===== src/Sandbox/Bounds.antt =====
-- The size of the pool, and the agreement of what fills it with what takes from it.
use edge_orchestrator.Common.{
  ℕ, ◌+◌, ◌≤◌, ◌≡◌, refl, true, false, [], ◌∷◌, leb, ltb, arith, if◌then◌else◌,
}
use edge_orchestrator.Sandbox.{
  keep, discard, refill, new, after_job, boots_needed, take_from_pool_when_available,
}

abbrev pub max : ℕ → ℕ → ℕ
max a b = if leb a b then b else a

-- In fresh mode the target is the configured size, or eight where that is less: no more than
-- either, and no less than any `x` that is within both; booting what is needed brings the idle
-- machines to the target, and leaves more than that alone; each job's machine is discarded, and a
-- refill to the target follows exactly where a size is configured, as the next job then takes its
-- machine from the pool. In reuse mode nothing is ever booted for the pool nor taken from it, and the
-- machine is kept.
pub pool_bounds :
    (configured_size idle x : ℕ)
    → x ≤ configured_size
    → x ≤ 8
    → let fresh = new false configured_size in
      let reused = new true configured_size in
      (fresh.target ≤ configured_size)
      × (fresh.target ≤ 8)
      × (x ≤ fresh.target)
      × (idle + boots_needed fresh idle ≡ max idle fresh.target)
      × (after_job fresh
          ≡ (if ltb 0 configured_size then discard ∷ refill fresh.target ∷ [] else discard ∷ []))
      × (take_from_pool_when_available fresh ≡ ltb 0 configured_size)
      × (boots_needed reused idle ≡ 0)
      × (after_job reused ≡ keep ∷ [])
      × (take_from_pool_when_available reused ≡ false)
unfolding new boots_needed after_job take_from_pool_when_available
pool_bounds configured_size idle x within small = (
  ground arith,
  ground arith,
  ground arith,
  ground arith,
  ground arith,
  ground arith,
  omega arith,
  refl,
  refl,
)
