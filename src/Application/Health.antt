-- ===== src/Application/Health.antt =====
-- checkRunningAndHealthy and awaitRunningAndHealthy. Marathon's answers are a parameter: `polls i` is
-- what the i-th call of `client.Application` returns. The sleeps between them are not modelled.
use native.Mathlib.Decide.{ℕ_discrete}
use stack_deploy.Prelude.{
  ℕ, zero, suc, ◌+◌, ◌≤◌, ◌<◌, ◌≡◌, ◌≢◌, ◌↔◌, not, String-cases, ◌&&◌, none, some, arith, ap, ◌∙◌,
  ◌==◌, eqb, inl, inr, ◌⊎◌, Option-cases, if◌then◌else◌,
}
use stack_deploy.Prelude.Int.{ℤ, pos, negsuc, ◌≤ℤ◌}
use stack_deploy.Application.{
  Application, Error, Failure, does_not_exist, task_not_running, healthcheck_not_passing,
  await_failed,
}

-- What the program reads of Marathon's answer.
pub record Report : Type 0 where
  pub tasks_running : ℕ
  pub tasks_healthy : ℕ

pub data Poll : Type 0 where
  failure : Error → Poll
  missing : Poll
  report : Report → Poll

unfoldable pub check_running_and_healthy : Application → Poll → Failure
check_running_and_healthy a (failure e) = some e
check_running_and_healthy a missing = some does_not_exist
check_running_and_healthy a (report app) =
    if eqb app.tasks_running 0
    then some task_not_running
    else if not (a.healthcheck == "") && eqb app.tasks_healthy 0
    then some healthcheck_not_passing
    else none

-- The loop from the i-th poll on, with `rounds` polls left; it answers with the number of polls made.
pub await_from : Application → (ℕ → Poll) → ℕ → ℕ → ℕ × Failure
unfolding check_running_and_healthy
await_from a polls zero i = (i, some await_failed)
await_from a polls (suc rounds) i =
    let next = await_from a polls rounds (suc i) in
    elim (check_running_and_healthy a (polls i)) [ none ↦ (suc i, none) | some e ↦ next ]

-- `for i := 0; i <= retries; i++`
abbrev pub rounds_of : ℤ → ℕ
rounds_of (pos n) = suc n
rounds_of (negsuc n) = 0

unfoldable pub await_running_and_healthy : Application → (ℕ → Poll) → ℤ → ℕ × Failure
unfolding await_from
await_running_and_healthy a polls retries = await_from a polls (rounds_of retries) 0

abbrev pub IsReady : Application → Poll → Type 0
IsReady a p = check_running_and_healthy a p ≡ none

-- What the loop answers from the i-th poll on: it stops at the first poll that is good, and gives up
-- after `rounds` of them when there is none.
abbrev pub Awaits : Application → (ℕ → Poll) → ℕ → ℕ → ℕ × Failure → Type 0
Awaits a polls rounds i r =
    ((k : ℕ) × (i ≤ k)
      × (k < i + rounds)
      × IsReady a (polls k)
      × ((j : ℕ) → i ≤ j → j < k → ¬ IsReady a (polls j))
      × (r ≡ (suc k, none)))
    ⊎ (((j : ℕ) → i ≤ j → j < i + rounds → ¬ IsReady a (polls j))
        × (r ≡ (i + rounds, some await_failed)))

module _ (a : Application) (polls : ℕ → Poll) (i : ℕ) {e : Error}
    (bad : check_running_and_healthy a (polls i) ≡ some e) where
  none_at : (j : ℕ) → i ≡ j → ¬ IsReady a (polls j)
  none_at j same h = cc (ap (λ k. check_running_and_healthy a (polls k)) same)

  extend_none :
      (bound : ℕ)
      → ((j : ℕ) → suc i ≤ j → j < bound → ¬ IsReady a (polls j))
      → (j : ℕ) → i ≤ j
      → j < bound
      → ¬ IsReady a (polls j)
  extend_none bound later j ge lt = elim (ℕ_discrete i j) [
    | yes same ↦ none_at j same
    | no other ↦ later j (omega arith) lt
  ]

await_from-Awaits :
    (a : Application) (polls : ℕ → Poll) (rounds i : ℕ)
    → Awaits a polls rounds i (await_from a polls rounds i)
unfolding await_from
await_from-Awaits a polls zero i = inr (λ j ge lt. absurd (omega arith), ground arith)
await_from-Awaits a polls (suc rounds) i =
    elim (Option-cases (check_running_and_healthy a (polls i))) [
      | inl good ↦
          inl (i, omega arith, omega arith, good, λ j ge lt. absurd (omega arith), ground arith)
      | inr (e, bad) ↦ elim (await_from-Awaits a polls rounds (suc i)) [
        | inl (k, ge, lt, ready, before, r) ↦
            inl
              (k, omega arith, omega arith, ready, extend_none a polls i bad k before, ground arith)
        | inr (later, r) ↦ inr (
          extend_none a polls i bad (i + suc rounds) (λ j ge lt. later j ge (omega arith)),
          ground arith,
        )
      ]
    ]

-- The poll shows the application with a task that runs, and one that is healthy where it has a
-- health check.
abbrev pub IsUp : Application → Poll → Type 0
IsUp a (failure e) = ⊥
IsUp a missing = ⊥
IsUp a (report app) = (0 < app.tasks_running) × (a.healthcheck ≢ "" → 0 < app.tasks_healthy)

-- The polls are those with 0 ≤ k ≤ retries.
abbrev pub EndsPolls : Application → (ℕ → Poll) → ℤ → ℕ × Failure → Type 0
EndsPolls a polls retries r =
    ((k : ℕ) × (pos k ≤ℤ retries)
      × IsUp a (polls k)
      × ((j : ℕ) → j < k → ¬ IsUp a (polls j))
      × (r ≡ (suc k, none)))
    ⊎ (((j : ℕ) → pos j ≤ℤ retries → ¬ IsUp a (polls j))
        × (r.1 ≡ some await_failed)
        × ((j : ℕ) → (j < r.0) ↔ (pos j ≤ℤ retries)))

IsReady-IsUp : (a : Application) (p : Poll) → IsReady a p ↔ IsUp a p
unfolding check_running_and_healthy
IsReady-IsUp a (failure e) = (λ h. cc, λ u. absurd u)
IsReady-IsUp a missing = (λ h. cc, λ u. absurd u)
IsReady-IsUp a (report app) = elim (String-cases a.healthcheck "") [
  | inl (e, is_empty) ↦
      (λ h. (ground arith, λ ne. absurd (ne e)), λ u. let running = u.0 in ground arith)
  | inr (ne, not_empty) ↦ (
    λ h. (ground arith, λ _. ground arith),
    λ u. let running = u.0 in let healthy = u.1 ne in ground arith,
  )
]

within-rounds_of : (k : ℕ) (retries : ℤ) → (k < rounds_of retries) ↔ (pos k ≤ℤ retries)
within-rounds_of k (pos n) = (λ h. omega arith, λ h. omega arith)
within-rounds_of k (negsuc n) = (λ h. absurd (omega arith), λ h. absurd (omega arith))

-- The wait ends well with the first of the polls 0 to `retries` that shows a running task, and a
-- healthy one where the application has a health check; when there is none it fails, after exactly
-- these polls, none of them where `retries` is negative.
pub await_running_and_healthy_lem :
    (a : Application) (polls : ℕ → Poll) (retries : ℤ)
    → EndsPolls a polls retries (await_running_and_healthy a polls retries)
unfolding await_running_and_healthy
await_running_and_healthy_lem a polls retries =
    elim (await_from-Awaits a polls (rounds_of retries) 0) [
      | inl (k, ge, lt, ready, before, r) ↦ inl (
        k,
        (within-rounds_of k retries).0 (omega arith),
        (IsReady-IsUp a (polls k)).0 ready,
        λ j earlier up. before j (omega arith) earlier ((IsReady-IsUp a (polls j)).1 up),
        r,
      )
      | inr (never, r) ↦
          let counted : (await_from a polls (rounds_of retries) 0).0 ≡ rounds_of retries =
            ap (λ x. x.0) r ∙ omega arith in
          inr (
            λ j within up.
                let early = (within-rounds_of j retries).1 within in
                never j (omega arith) (omega arith) ((IsReady-IsUp a (polls j)).1 up),
            ap (λ x. x.1) r,
            λ j. rw counted (within-rounds_of j retries),
          )
    ]
