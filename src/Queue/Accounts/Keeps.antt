-- ===== src/Queue/Accounts/Keeps.antt =====
-- What the updates of jobs keep of a row, and of the accounts.
use pixiv_archive.Prelude.{
  ℕ, List, [], ◌∷◌, Bool, true, Option, none, some, ◌==◌, ==_iff, ◌≡◌, refl, sym, ap, ◌∙◌, inl, inr,
  ok, Bool-cases,
}
use mathlib.Core.Path.{subst}
use pixiv_archive.Queue.Store.{Documents, Units, Database, Job}
use pixiv_archive.Queue.Transact.{succeeded, pure-eq-ok, gets-eq-ok}
use pixiv_archive.Queue.Table.{find_job, replace_job, update_job, update_each, update_jobs}
use pixiv_archive.Queue.Table.Rows.{
  Wrote, find-replace_self, find-replace_other, update_job-eq-ok, update_job-eq-none, find_job-id,
}

module _ ⦃J : Documents⦄ where
  some_injective : {a b : Job} → some a ≡ some b → a ≡ b
  some_injective h = cc

module _ ⦃J : Documents⦄ ⦃U : Units⦄ where
  -- The row has the property, and the accounts are as before.
  pub record Keeps (P : Job → Type 0) (id : ℕ) (db next : Database) : Type 0 where
    pub holds :
        (job : Job)
        → find_job id db.jobs ≡ some job
        → P job
        → (later : Job) × (find_job id next.jobs ≡ some later) × P later
    pub accounts : next.accounts ≡ db.accounts

  pub Keeps-refl : (P : Job → Type 0) (id : ℕ) (db : Database) → Keeps P id db db
  Keeps-refl P id db = record { holds = λ job at p. (job, at, p); accounts = refl }

  pub Keeps-trans :
      (P : Job → Type 0) (id : ℕ) (a b c : Database)
      → Keeps P id a b
      → Keeps P id b c
      → Keeps P id a c
  Keeps-trans P id a b c first then_on = record {
    holds = λ job at p. let (mid, there, q) = first.holds job at p in then_on.holds mid there q;
    accounts = then_on.accounts ∙ first.accounts;
  }

  -- An update that keeps the property of each row it changes.
  module _ (P : Job → Type 0) (id : ℕ) (test : Job → Bool) (change : Job → Job)
      (same_id : (job : Job) → (change job).id ≡ job.id)
      (keeps : (job : Job) → P job → test job ≡ true → P (change job)) where
    Wrote-Keeps :
        (key : ℕ) (db next : Database) (written : Job)
        → Wrote key test change db written next
        → Keeps P id db next
    Wrote-Keeps key db next written w =
        let named : written.id ≡ key =
          ap (λ (j : Job). j.id) w.is_change
          ∙ (same_id w.old ∙ find_job-id key db.jobs w.old w.found) in
        record {
          holds = λ job at p. elim (Bool-cases (written.id == id)) [
            | inl same ↦
                let here : written.id ≡ id = (==_iff written.id id).0 same in
                let old_is : w.old ≡ job = some_injective (sym w.found ∙ (rw (← named, here) at)) in
                (
                  written,
                  ap (λ (tables : Database). find_job id tables.jobs) w.after
                      ∙ subst (λ k. find_job k (replace_job written db.jobs) ≡ some written) here
                          (find-replace_self written w.old db.jobs (rw named w.found)),
                  subst P (sym w.is_change) (keeps w.old (subst P (sym old_is) p) w.tested),
                )
            | inr apart ↦ (
              job,
              ap (λ (tables : Database). find_job id tables.jobs) w.after
                  ∙ (find-replace_other id written db.jobs apart ∙ at),
              p,
            )
          ];
          accounts = ap (λ (tables : Database). tables.accounts) w.after;
        }

    pub update_job-Keeps :
        (key : ℕ) (db next : Database) (o : Option Job)
        → update_job key test change db ≡ ok (o, next)
        → Keeps P id db next
    update_job-Keeps key db next none h =
        rw (update_job-eq-none key test change db next h) (Keeps-refl P id db)
    update_job-Keeps key db next (some written) h =
        Wrote-Keeps key db next written (update_job-eq-ok key test change db next written h)

    update_each-Keeps :
        (ids : List ℕ) (db next : Database) (rows : List Job)
        → update_each ids test change db ≡ ok (rows, next)
        → Keeps P id db next
    unfolding update_each
    update_each-Keeps [] db next rows h = rw (sym (pure-eq-ok _ _ h).1) (Keeps-refl P id db)
    update_each-Keeps (key ∷ ids) db next rows h =
        let (o, mid, first, rest) = succeeded _ _ h in
        let (others, last, later, answered) = succeeded _ _ rest in
        let (is, end) = pure-eq-ok _ _ answered in
        Keeps-trans P id db mid next (update_job-Keeps key db mid o first)
          (rw end at (update_each-Keeps ids mid last others later))

    pub update_jobs-Keeps :
        (db next : Database) (rows : List Job)
        → update_jobs test change db ≡ ok (rows, next)
        → Keeps P id db next
    unfolding update_jobs
    update_jobs-Keeps db next rows h =
        let (ids, mid, got, later) = succeeded _ _ h in
        let (at, same) = gets-eq-ok _ got in
        rw (sym same) at (update_each-Keeps ids mid next rows later)
