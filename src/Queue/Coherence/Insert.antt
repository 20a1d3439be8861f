-- ===== src/Queue/Coherence/Insert.antt =====
-- A new row of the table of jobs, which no attempt refers to.
use pixiv_archive.Prelude.{
  ℕ, List, [], ◌∷◌, ◌++◌, true, false, none, some, if◌then◌else◌, ◌==◌, ==_iff, ◌≡◌, refl, sym, ◌∙◌,
  ◌⊎◌, inl, inr, Bool-cases, Option-cases, arith,
}
use pixiv_archive.Queue.Store.{Documents, Units, Database, Job, Attempt}
use pixiv_archive.Queue.Table.{find_job, is_running, passes_checks, out_of_range}
use pixiv_archive.Queue.Attempts.{numbers}
use pixiv_archive.Queue.Attempts.Numbers.{open_numbers-nil}
use pixiv_archive.Queue.Coherence.{IsKeyed, IsTracked, IsCoherent, Onward-refl, Advances, Grows}

-- A job without attempts.
untried-IsTracked :
    (id : ℕ) (rows : List Attempt) → numbers id rows ≡ [] → IsTracked id 0 false rows
untried-IsTracked id rows h = record { bounded = rw h tt; opened = open_numbers-nil id rows h }

module _ ⦃J : Documents⦄ where
  some_injective : {a b : Job} → some a ≡ some b → a ≡ b
  some_injective h = cc

  find-append_old :
      (id : ℕ) (jobs : List Job) (row job : Job)
      → find_job id jobs ≡ some job
      → find_job id (jobs ++ row ∷ []) ≡ some job
  unfolding find_job
  find-append_old id [] row job h = cc
  find-append_old id (other ∷ rest) row job h = ground (arith, find-append_old id rest row job)

  pub find-append_new :
      (id : ℕ) (jobs : List Job) (row : Job)
      → find_job id jobs ≡ none
      → find_job id (jobs ++ row ∷ []) ≡ (if row.id == id then some row else none)
  unfolding find_job
  find-append_new id [] row h = refl
  find-append_new id (other ∷ rest) row h = ground (arith, find-append_new id rest row)

  not_first :
      (other row : Job) (rest : List Job)
      → find_job row.id (other ∷ rest) ≡ none
      → ((row.id == other.id) ≡ false) × (find_job row.id rest ≡ none)
  unfolding find_job
  not_first other row rest h = (ground arith, ground arith)

  append-IsKeyed :
      (jobs : List Job) (row : Job)
      → find_job row.id jobs ≡ none
      → IsKeyed jobs
      → IsKeyed (jobs ++ row ∷ [])
  append-IsKeyed [] row h k = unfold find_job in (refl, tt)
  append-IsKeyed (other ∷ rest) row h k =
      let (apart, fresh) = not_first other row rest h in
      (find-append_new other.id rest row k.0 ∙ rw apart refl, append-IsKeyed rest row fresh k.1)

module _ ⦃J : Documents⦄ ⦃U : Units⦄ (db next : Database) (row : Job) where
  pub record IsInsert : Type 0 where
    pub fresh : find_job row.id db.jobs ≡ none
    pub jobs : next.jobs ≡ db.jobs ++ row ∷ []
    pub attempts : next.attempts ≡ db.attempts
    pub idle : is_running row.state ≡ false
    pub no_attempts : row.attempts ≡ 0
    pub legal : (passes_checks row ≡ true) × (out_of_range row ≡ false)

  module _ (insert : IsInsert) where
    -- Of the row at a number: that it is as before, or that it is the new one.
    row_cases :
        (id : ℕ) (job : Job)
        → find_job id next.jobs ≡ some job
        → (find_job id db.jobs ≡ some job) ⊎ ((id ≡ row.id) × (job ≡ row))
    row_cases id job at = elim (Option-cases (find_job id db.jobs)) [
      | inr (old, before) ↦
          inl (before ∙ (sym (rw insert.jobs (find-append_old id db.jobs row old before)) ∙ at))
      | inl fresh ↦ elim (Bool-cases (row.id == id)) [
        | inl same ↦ inr (
          sym ((==_iff row.id id).0 same),
          some_injective
              (sym at ∙ rw (insert.jobs, find-append_new id db.jobs row fresh, same) refl),
        )
        | inr apart ↦ absurd (
            let e : some job ≡ none =
              sym at ∙ rw (insert.jobs, find-append_new id db.jobs row fresh, apart) refl in
            cc)
      ]
    ]

    still_tracked :
        (h : IsCoherent db) (id : ℕ) (job : Job)
        → find_job id next.jobs ≡ some job
        → IsTracked id job.attempts (is_running job.state) next.attempts
    still_tracked h id job at = elim (row_cases id job at) [
      | inl before ↦ rw insert.attempts (h.tracked id job before)
      | inr (same, is) ↦
          rw (is, insert.no_attempts, insert.idle, insert.attempts, same)
            (untried-IsTracked row.id db.attempts (h.untried row.id insert.fresh))
    ]

    still_legal :
        (h : IsCoherent db) (id : ℕ) (job : Job)
        → find_job id next.jobs ≡ some job
        → (passes_checks job ≡ true) × (out_of_range job ≡ false)
    still_legal h id job at = elim (row_cases id job at) [
      | inl before ↦ h.legal id job before
      | inr (same, is) ↦ rw is insert.legal
    ]

    still_untried :
        (h : IsCoherent db) (id : ℕ) → find_job id next.jobs ≡ none → numbers id next.attempts ≡ []
    still_untried h id at = elim (Option-cases (find_job id db.jobs)) [
      | inl fresh ↦ rw insert.attempts (h.untried id fresh)
      | inr (old, before) ↦ absurd (
          let e : none ≡ some old =
            sym at ∙ rw insert.jobs (find-append_old id db.jobs row old before) in
          cc)
    ]

    pub IsInsert-Advances : Advances db next
    IsInsert-Advances = record {
      coherent = λ h. record {
        keyed = rw insert.jobs (append-IsKeyed db.jobs row insert.fresh h.keyed);
        tracked = still_tracked h;
        legal = still_legal h;
        untried = still_untried h;
      };
      evolves = λ h. record {
        onward = λ id job at.
            (job, rw insert.jobs (find-append_old id db.jobs row job at), Onward-refl job);
      };
    }

    pub IsInsert-Grows : Grows db next
    IsInsert-Grows = record {
      advances = IsInsert-Advances;
      kept = λ id job at. rw insert.jobs (find-append_old id db.jobs row job at);
      attempts = insert.attempts;
    }
