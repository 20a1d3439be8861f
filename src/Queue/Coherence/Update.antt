-- ===== src/Queue/Coherence/Update.antt =====
-- A write of one row with a change of the attempts at its job.
use pixiv_archive.Prelude.{
  ℕ, List, [], ◌∷◌, true, false, none, some, ◌==◌, ==_iff, ◌≡◌, sym, ◌∙◌, ◌⊎◌, inl, inr, Bool-cases,
  arith,
}
use pixiv_archive.Queue.Store.{Documents, Units, Database, Job}
use pixiv_archive.Queue.Table.{find_job, replace_job, is_running, passes_checks, out_of_range}
use pixiv_archive.Queue.Table.Rows.{find-replace_self, find-replace_other}
use pixiv_archive.Queue.Attempts.{numbers, open_numbers}
use pixiv_archive.Queue.Coherence.{IsKeyed, IsTracked, IsCoherent, Onward, Onward-refl, Advances}

flipped : (m n : ℕ) → (m == n) ≡ false → (n == m) ≡ false
flipped m n h = ground arith

module _ ⦃J : Documents⦄ where
  some_injective : {a b : Job} → some a ≡ some b → a ≡ b
  some_injective h = cc

  pub replace-IsKeyed :
      (job : Job) (jobs : List Job) → IsKeyed jobs → IsKeyed (replace_job job jobs)
  unfolding replace_job
  replace-IsKeyed job [] h = tt
  replace-IsKeyed job (other ∷ rest) h = elim (Bool-cases (other.id == job.id)) [
    | inl same ↦ rw same ((rw ((==_iff other.id job.id).0 same) at h.0), h.1)
    | inr apart ↦ rw apart (
      find-replace_other other.id job rest (flipped other.id job.id apart) ∙ h.0,
      replace-IsKeyed job rest h.1,
    )
  ]

module _ ⦃J : Documents⦄ ⦃U : Units⦄ (db next : Database) (old written : Job) where
  -- What a transaction that writes a row and changes the attempts at its job has to show.
  pub record IsUpdate : Type 0 where
    pub found : find_job written.id db.jobs ≡ some old
    pub jobs : next.jobs ≡ replace_job written db.jobs
    pub legal : (passes_checks written ≡ true) × (out_of_range written ≡ false)
    pub onward : Onward old written
    pub tracked :
        IsTracked written.id old.attempts (is_running old.state) db.attempts
        → IsTracked written.id written.attempts (is_running written.state) next.attempts
    pub others :
        (other : ℕ)
        → (written.id == other) ≡ false
        → (numbers other next.attempts ≡ numbers other db.attempts)
          × (open_numbers other next.attempts ≡ open_numbers other db.attempts)

  module _ (update : IsUpdate) where
    found_self : find_job written.id next.jobs ≡ some written
    found_self = rw update.jobs (find-replace_self written old db.jobs update.found)

    found_other :
        (other : ℕ)
        → (written.id == other) ≡ false
        → find_job other next.jobs ≡ find_job other db.jobs
    found_other other apart = rw update.jobs (find-replace_other other written db.jobs apart)

    -- Of the row at a number: that it is the written one, or that it was there before.
    row_cases :
        (id : ℕ)
        → ((id ≡ written.id) × (find_job id next.jobs ≡ some written))
          ⊎ (((written.id == id) ≡ false) × (find_job id next.jobs ≡ find_job id db.jobs))
    row_cases id = elim (Bool-cases (written.id == id)) [
      | inl same ↦
          let e : id ≡ written.id = sym ((==_iff written.id id).0 same) in inl (e, rw e found_self)
      | inr apart ↦ inr (apart, found_other id apart)
    ]

    still_tracked :
        (h : IsCoherent db) (id : ℕ) (job : Job)
        → find_job id next.jobs ≡ some job
        → IsTracked id job.attempts (is_running job.state) next.attempts
    still_tracked h id job at = elim (row_cases id) [
      | inl (same, there) ↦
          let e : job ≡ written = some_injective (sym at ∙ there) in
          rw (same, e) (update.tracked (h.tracked written.id old update.found))
      | inr (apart, as_before) ↦
          let before = h.tracked id job (sym as_before ∙ at) in
          let (all, opened) = update.others id apart in
          record { bounded = rw all before.bounded; opened = rw opened before.opened }
    ]

    still_legal :
        (h : IsCoherent db) (id : ℕ) (job : Job)
        → find_job id next.jobs ≡ some job
        → (passes_checks job ≡ true) × (out_of_range job ≡ false)
    still_legal h id job at = elim (row_cases id) [
      | inl (same, there) ↦
          let e : job ≡ written = some_injective (sym at ∙ there) in rw e update.legal
      | inr (apart, as_before) ↦ h.legal id job (sym as_before ∙ at)
    ]

    still_untried :
        (h : IsCoherent db) (id : ℕ) → find_job id next.jobs ≡ none → numbers id next.attempts ≡ []
    still_untried h id at = elim (row_cases id) [
      | inl (same, there) ↦ absurd (let e : none ≡ some written = sym at ∙ there in cc)
      | inr (apart, as_before) ↦ rw ((update.others id apart).0) (h.untried id (sym as_before ∙ at))
    ]

    moved_on :
        (id : ℕ) (job : Job)
        → find_job id db.jobs ≡ some job
        → (later : Job) × (find_job id next.jobs ≡ some later) × Onward job later
    moved_on id job at = elim (row_cases id) [
      | inl (same, there) ↦
          let e : job ≡ old = some_injective (sym at ∙ (rw same update.found)) in
          (written, there, rw e update.onward)
      | inr (apart, as_before) ↦ (job, as_before ∙ at, Onward-refl job)
    ]

    pub IsUpdate-Advances : Advances db next
    IsUpdate-Advances = record {
      coherent = λ h. record {
        keyed = rw update.jobs (replace-IsKeyed written db.jobs h.keyed);
        tracked = still_tracked h;
        legal = still_legal h;
        untried = still_untried h;
      };
      evolves = λ h. record { onward = moved_on };
    }
