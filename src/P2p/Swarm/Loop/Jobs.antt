-- ===== src/P2p/Swarm/Loop/Jobs.antt =====
-- Lemmas on the jobs that run and the outcomes that are queued.
use mathlib.Core.List.{Memᴰ}
use edge_orchestrator.Common.{
  ℕ, zero, suc, ◌≡◌, ◌⊎◌, refl, inl, inr, true, ◌||◌, some, List, [], ◌∷◌, ◌++◌, map, arith,
  contains, remove_at, ℕ_discrete, nat_eq, All,
}
use edge_orchestrator.Types.{TaskId}
use edge_orchestrator.P2p.Swarm.{Job}
use edge_orchestrator.P2p.Swarm.Loop.{Outcome, job_at}

abbrev pub job_ids : List Job → List TaskId
job_ids js = map (λ j. j.task.task_id) js

abbrev pub outcome_ids : List Outcome → List TaskId
outcome_ids os = map (λ o. o.task_id) os

-- The result of an outcome is its task's.
abbrev pub IsNamed : List Outcome → Type 0
IsNamed os = All (λ o. o.result.task_id ≡ o.task_id) os

pub mem-append_left : {A : Type 0} (x : A) (xs ys : List A) → Memᴰ x xs → Memᴰ x (xs ++ ys)
mem-append_left x [] ys m = elim m [ ]
mem-append_left x (y ∷ xs) ys (Memᴰ.head e) = Memᴰ.head e
mem-append_left x (y ∷ xs) ys (Memᴰ.tail m) = Memᴰ.tail (mem-append_left x xs ys m)

pub mem-append_end : {A : Type 0} (x : A) (xs : List A) → Memᴰ x (xs ++ x ∷ [])
mem-append_end x [] = Memᴰ.head refl
mem-append_end x (y ∷ xs) = Memᴰ.tail (mem-append_end x xs)

pub IsNamed-append :
    (os : List Outcome) (o : Outcome)
    → IsNamed os
    → o.result.task_id ≡ o.task_id
    → IsNamed (os ++ o ∷ [])
IsNamed-append [] o h e = (e, tt)
IsNamed-append (p ∷ os) o h e = (h.0, IsNamed-append os o h.1 e)

pub job_ids-append :
    (t : TaskId) (js : List Job) (j : Job)
    → contains t (job_ids (js ++ j ∷ []))
      ≡ (contains t (job_ids js) || contains t (j.task.task_id ∷ []))
unfolding contains
job_ids-append t [] j = refl
job_ids-append t (i ∷ js) j = ground (arith, job_ids-append t js j)

pub outcome_ids-append :
    (t : TaskId) (os : List Outcome) (o : Outcome)
    → contains t (outcome_ids (os ++ o ∷ []))
      ≡ (contains t (outcome_ids os) || contains t (o.task_id ∷ []))
unfolding contains
outcome_ids-append t [] o = refl
outcome_ids-append t (p ∷ os) o = ground (arith, outcome_ids-append t os o)

-- Taking a job out takes out no other task's.
pub job_removed :
    (t : TaskId) (js : List Job) (i : ℕ) (j : Job)
    → job_at js i ≡ some j
    → contains t (job_ids js) ≡ true
    → (contains t (job_ids (remove_at i js)) ≡ true) ⊎ (j.task.task_id ≡ t)
unfolding contains remove_at
job_removed t [] i j at h = cc
job_removed t (k ∷ js) zero j at h = elim (ℕ_discrete k.task.task_id t) [
  | yes here ↦ inr (let e : some k ≡ some j = at in cc (e, here))
  | no ne ↦ inl (ground (arith, ne))
]
job_removed t (k ∷ js) (suc i) j at h = elim (ℕ_discrete k.task.task_id t) [
  | yes here ↦ inl (ground (arith, here))
  | no ne ↦ elim (job_removed t js i j at (ground (arith, ne))) [
    | inl rest ↦ inl (ground (arith, ne, rest))
    | inr gone ↦ inr gone
  ]
]
