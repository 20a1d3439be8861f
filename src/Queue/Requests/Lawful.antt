-- ===== src/Queue/Requests/Lawful.antt =====
-- What the checks of the table job_attempt mean (migrations/0001_initial.sql).
use pixiv_archive.Prelude.{
  ℕ, ◌<◌, ◌≤◌, List, true, false, not, ◌&&◌, Option, none, some, leb, ltb, ◌≡◌, ◌≢◌, refl, ◌↔◌, All,
  All-imp, and_split, Bool-cases, inl, inr, arith,
}
use pixiv_archive.Job.State.{
  JobState, queued, running, waiting_account, waiting_storage, completed, failed, cancelled,
}
use pixiv_archive.Queue.Store.{Attempt}
use pixiv_archive.Queue.Table.{is_running}
use pixiv_archive.Queue.Attempts.{attempt_state_check, finish_check, attempt_checks}

-- An attempt without an end runs; one with an end does not, and has not ended before it began.
abbrev pub HasEnd : JobState → ℕ → Option ℕ → Type 0
HasEnd state started_at none = state ≡ running
HasEnd state started_at (some finished) = (state ≢ running) × (started_at ≤ finished)

-- An attempt is never queued and never waits for an account, and its number is positive.
pub record IsLawful (attempt : Attempt) : Type 0 where
  pub begun : (attempt.state ≢ queued) × (attempt.state ≢ waiting_account)
  pub ends : HasEnd attempt.state attempt.started_at attempt.finished_at
  pub numbered : 0 < attempt.attempt_number

attempt_state_check_iff :
    (state : JobState)
    → (attempt_state_check state ≡ true) ↔ ((state ≢ queued) × (state ≢ waiting_account))
attempt_state_check_iff queued = (λ h. absurd (cc), λ p. absurd (p.0 refl))
attempt_state_check_iff waiting_account = (λ h. absurd (cc), λ p. absurd (p.1 refl))
attempt_state_check_iff running = (λ h. (λ e. cc, λ e. cc), λ p. refl)
attempt_state_check_iff waiting_storage = (λ h. (λ e. cc, λ e. cc), λ p. refl)
attempt_state_check_iff completed = (λ h. (λ e. cc, λ e. cc), λ p. refl)
attempt_state_check_iff failed = (λ h. (λ e. cc, λ e. cc), λ p. refl)
attempt_state_check_iff cancelled = (λ h. (λ e. cc, λ e. cc), λ p. refl)

is_running_iff : (state : JobState) → (is_running state ≡ true) ↔ (state ≡ running)
is_running_iff running = (λ h. refl, λ e. refl)
is_running_iff queued = (λ h. absurd (cc), λ e. absurd (cc))
is_running_iff waiting_account = (λ h. absurd (cc), λ e. absurd (cc))
is_running_iff waiting_storage = (λ h. absurd (cc), λ e. absurd (cc))
is_running_iff completed = (λ h. absurd (cc), λ e. absurd (cc))
is_running_iff failed = (λ h. absurd (cc), λ e. absurd (cc))
is_running_iff cancelled = (λ h. absurd (cc), λ e. absurd (cc))

finish_check_iff :
    (attempt : Attempt) (finished_at : Option ℕ)
    → (finish_check attempt finished_at ≡ true)
      ↔ HasEnd attempt.state attempt.started_at finished_at
finish_check_iff attempt none = is_running_iff attempt.state
finish_check_iff attempt (some finished) =
    let (to, from) = is_running_iff attempt.state in
    (
      λ h.
          let (idle, later) =
            and_split (not (is_running attempt.state)) (leb attempt.started_at finished) h in
          (λ e. let active = from e in cc, ground arith),
      λ p.
          let idle : is_running attempt.state ≡ false =
            elim (Bool-cases (is_running attempt.state)) [
              | inl active ↦ absurd (p.0 (to active))
              | inr resting ↦ resting
            ] in
          ground (arith, idle, p.1),
    )

pub attempt_checks_iff : (attempt : Attempt) → (attempt_checks attempt ≡ true) ↔ IsLawful attempt
unfolding attempt_checks
attempt_checks_iff attempt =
    let (begun, unbegun) = attempt_state_check_iff attempt.state in
    let (ends, unends) = finish_check_iff attempt attempt.finished_at in
    (
      λ h.
          let (rest, number) =
            and_split
              (attempt_state_check attempt.state && finish_check attempt attempt.finished_at)
              (ltb 0 attempt.attempt_number) h in
          let (state, finish) =
            and_split (attempt_state_check attempt.state) (finish_check attempt attempt.finished_at)
              rest in
          record { begun = begun state; ends = ends finish; numbered = ground arith },
      λ p. rw (unbegun p.begun, unends p.ends) (ground (arith, p.numbered)),
    )

pub IsLawful-IsChecked :
    (rows : List Attempt) → All IsLawful rows → All (λ row. attempt_checks row ≡ true) rows
IsLawful-IsChecked rows h =
    All-imp IsLawful (λ row. attempt_checks row ≡ true) rows (λ row p. (attempt_checks_iff row).1 p)
      h

pub IsChecked-IsLawful :
    (rows : List Attempt) → All (λ row. attempt_checks row ≡ true) rows → All IsLawful rows
IsChecked-IsLawful rows h =
    All-imp (λ row. attempt_checks row ≡ true) IsLawful rows (λ row p. (attempt_checks_iff row).0 p)
      h
