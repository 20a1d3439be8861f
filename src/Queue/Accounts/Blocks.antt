-- ===== src/Queue/Accounts/Blocks.antt =====
-- The block of an account by one of its jobs leaves the job waiting for the account, and the account
-- without a valid credential (crates/db/src/jobs/account_wait.rs).
use pixiv_archive.Prelude.{
  ℕ, ◌+◌, List, [], ◌∷◌, Bool, true, false, Option, none, some, String, ◌≡◌, refl, sym, ap, ◌∙◌,
  ◌⊎◌, inl, inr, ok, Bool-cases, arith,
}
use mathlib.Core.Path.{subst}
use pixiv_archive.Job.State.{waiting_account}
use pixiv_archive.Subscription.Account
use pixiv_archive.Subscription.Account.{PixivAccountState}
use pixiv_archive.Queue.Store
use pixiv_archive.Queue.Store.{
  Documents, Units, Database, Tx, Job, JobLease, EventPayload, job_waiting_account, throw,
  append_event,
}
use pixiv_archive.Queue.Transact.{succeeded, pure-eq-ok, gets-eq-ok, or_throw-eq-ok}
use pixiv_archive.Queue.Table.{same_state, find_job, replace_job}
use pixiv_archive.Queue.Table.Rows.{find-replace_self, update_job-eq-ok, find_job-id}
use pixiv_archive.Queue.Attempts.Effects.{close_running_attempt-eq-ok}
use pixiv_archive.Queue.Insertion.{find_account}
use pixiv_archive.Queue.Transitions.{append_events}
use pixiv_archive.Queue.Accounts.Keeps.{
  Keeps, Keeps-refl, Keeps-trans, update_job-Keeps, update_jobs-Keeps,
}
use pixiv_archive.Queue.Accounts.Waits.{Aside-set_account}
use pixiv_archive.Queue.Accounts.{
  can_wait, blocked, is_unconfigured, replace_account, write_account, invalidate_account,
  set_account_credential_invalid, clear_error_class, move_jobs_to_account_wait, block_account_of,
  block_account_for_job, without_error_class, in_account_wait,
}

-- The account cannot be used.
abbrev pub IsBlocked : PixivAccountState → Type 0
IsBlocked state = (state ≡ Account.credential_invalid) ⊎ (state ≡ Account.unconfigured)

find_account-id :
    (id : ℕ) (accounts : List Store.Account) (account : Store.Account)
    → find_account id accounts ≡ some account
    → account.id ≡ id
unfolding find_account
find_account-id id [] account h = cc
find_account-id id (other ∷ rest) account h = ground (arith, find_account-id id rest account)

find-replace_account :
    (account old : Store.Account) (accounts : List Store.Account)
    → find_account account.id accounts ≡ some old
    → find_account account.id (replace_account account accounts) ≡ some account
unfolding find_account replace_account
find-replace_account account old [] h = cc
find-replace_account account old (other ∷ rest) h =
    ground (arith, find-replace_account account old rest)

module _ ⦃J : Documents⦄ where
  -- The job waits for its account, and neither runs nor is to be tried at some time.
  pub record IsParked (account_id : ℕ) (job : Job) : Type 0 where
    pub state : job.state ≡ waiting_account
    pub lease_owner : job.lease_owner ≡ none
    pub retryable : job.retryable ≡ none
    pub next_retry_at : job.next_retry_at ≡ none
    pub owner : job.pixiv_account_id ≡ some account_id

  parked-can_wait :
      (account_id other : ℕ) (job : Job) → IsParked account_id job → can_wait other job ≡ false
  unfolding can_wait same_state
  parked-can_wait account_id other job p = rw p.state (ground arith)

module _ ⦃J : Documents⦄ ⦃U : Units⦄ where
  append_events-accounts :
      (payload : ℕ → EventPayload) (rows : List Job) (a : Unit {0}) (db next : Database)
      → append_events payload rows db ≡ ok (a, next)
      → (next.jobs ≡ db.jobs) × (next.accounts ≡ db.accounts)
  unfolding append_events append_event
  append_events-accounts payload [] a db next h =
      let e = (pure-eq-ok {A = Unit {0}} tt a h).1 in
      (
        ap (λ (tables : Database). tables.jobs) (sym e),
        ap (λ (tables : Database). tables.accounts) (sym e),
      )
  append_events-accounts payload (row ∷ rows) a db next h =
      let (b, mid, first, later) = succeeded _ _ h in
      let (jobs, accounts) = append_events-accounts payload rows a mid next later in
      (jobs ∙ ground arith, accounts ∙ ground arith)

  write_account-eq-ok :
      (account : Store.Account) (a : Unit {0}) (db next : Database)
      → write_account account db ≡ ok (a, next)
      → (next.jobs ≡ db.jobs) × (next.accounts ≡ replace_account account db.accounts)
  unfolding write_account
  write_account-eq-ok account a db next h = (ground arith, ground arith)

  unconfigured_is :
      (state : PixivAccountState) → is_unconfigured state ≡ true → state ≡ Account.unconfigured
  unconfigured_is state h = ground arith

  abbrev invalid : ℕ → Store.Account → Store.Account
  invalid now account = record account {
    state = Account.credential_invalid;
    updated_at = now;
    revision = account.revision + 1;
  }

  -- The account is there, and cannot be used.
  abbrev pub HasBlocked : ℕ → Database → Type 0
  HasBlocked account_id db =
      (account : Store.Account) × (find_account account_id db.accounts ≡ some account)
      × IsBlocked account.state

  invalidate-HasBlocked :
      (now account_id : ℕ) (account : Option Store.Account) (told : Bool) (db next : Database)
      → find_account account_id db.accounts ≡ account
      → invalidate_account now account db ≡ ok (told, next)
      → HasBlocked account_id next
  unfolding invalidate_account append_event throw
  invalidate-HasBlocked now account_id none told db next at h = absurd (cc)
  invalidate-HasBlocked now account_id (some account) told db next at h =
      elim (Bool-cases (is_unconfigured account.state)) [
        | inl unconfigured ↦
            let same = (pure-eq-ok {A = Bool} false told (rw unconfigured at h)).1 in
            (
              account,
              ap (λ (tables : Database). find_account account_id tables.accounts) (sym same) ∙ at,
              inr (unconfigured_is account.state unconfigured),
            )
        | inr configured ↦
            let (a, mid, wrote, h1) = succeeded _ _ (rw configured at h) in
            let (b, mid1, appended, h2) = succeeded _ _ h1 in
            let (jobs, accounts) = write_account-eq-ok (invalid now account) a db mid wrote in
            let here = find_account-id account_id db.accounts account at in
            let same : next.accounts ≡ mid.accounts =
              ap (λ (tables : Database). tables.accounts) (sym (pure-eq-ok true told h2).1)
              ∙ ground arith in
            (
              invalid now account,
              ap (find_account account_id) (same ∙ accounts)
                  ∙ subst
                      (λ k.
                        find_account k (replace_account (invalid now account) db.accounts)
                        ≡ some (invalid now account))
                      here
                      (find-replace_account (invalid now account) account db.accounts
                        (subst (λ k. find_account k db.accounts ≡ some account) (sym here) at)),
              inl refl,
            )
      ]

  -- What a block by a job leads to: the job waits for its account, which cannot be used.
  abbrev pub IsBlockedJob : ℕ → Database → Type 0
  IsBlockedJob id db =
      (account_id : ℕ) × (job : Job) × (find_job id db.jobs ≡ some job)
      × IsParked account_id job
      × HasBlocked account_id db

  clear-Keeps :
      (account_id id key : ℕ) (invalidated : Bool) (a : Unit {0}) (db next : Database)
      → clear_error_class invalidated key db ≡ ok (a, next)
      → Keeps (IsParked account_id) id db next
  unfolding clear_error_class
  clear-Keeps account_id id key true a db next h =
      rw (sym (pure-eq-ok tt a h).1) (Keeps-refl (IsParked account_id) id db)
  clear-Keeps account_id id key false a db next h =
      let (o, mid, cleared, answered) = succeeded _ _ h in
      subst (λ tables. Keeps (IsParked account_id) id db tables) (pure-eq-ok tt a answered).1
        (update_job-Keeps (IsParked account_id) id (λ job. true) without_error_class (λ job. refl)
          (λ job p t. record {
            state = p.state;
            lease_owner = p.lease_owner;
            retryable = p.retryable;
            next_retry_at = p.next_retry_at;
            owner = p.owner;
          })
          key db mid o cleared)

  move_jobs-Keeps :
      (now account_id id other : ℕ) (error_class : Option String) (rows : List Job)
      (db next : Database)
      → move_jobs_to_account_wait now other error_class db ≡ ok (rows, next)
      → Keeps (IsParked account_id) id db next
  unfolding move_jobs_to_account_wait
  move_jobs-Keeps now account_id id other error_class rows db next h =
      update_jobs-Keeps (IsParked account_id) id (can_wait other) (in_account_wait now error_class)
        (λ job. refl)
        (λ job p waits. absurd (let e = sym (parked-can_wait account_id other job p) ∙ waits in cc))
        db next rows h

  block_account_of-IsBlockedJob :
      (now id account_id : ℕ) (row job : Job) (error_class : String) (a : Unit {0})
      (db next : Database)
      → find_job id db.jobs ≡ some job
      → IsParked account_id job
      → block_account_of now row account_id error_class db ≡ ok (a, next)
      → IsBlockedJob id next
  unfolding block_account_of set_account_credential_invalid
  block_account_of-IsBlockedJob now id account_id row job error_class a db next at p h =
      let (invalidated, db1, set, h1) = succeeded _ _ h in
      let (account, db0, looked, set1) = succeeded _ _ set in
      let (is, same) = gets-eq-ok _ looked in
      let (known, found, unusable) =
        invalidate-HasBlocked now account_id account invalidated db0 db1 (rw (← same) is) set1 in
      let (b, db2, cleared, h2) = succeeded _ _ h1 in
      let (rows, db3, moved_all, h3) = succeeded _ _ h2 in
      let (jobs, accounts) =
        append_events-accounts job_waiting_account (row ∷ rows) a db3 next h3 in
      let kept =
        Keeps-trans (IsParked account_id) id db1 db2 db3
          (clear-Keeps account_id id row.id invalidated b db1 db2 cleared)
          (move_jobs-Keeps now account_id id account_id _ rows db2 db3 moved_all) in
      let aside = (Aside-set_account now account_id).at db invalidated db1 set in
      let (later, there, parked) = kept.holds job (ap (find_job id) aside.jobs ∙ at) p in
      (
        account_id,
        later,
        ap (find_job id) jobs ∙ there,
        parked,
        (known, ap (find_account account_id) (accounts ∙ kept.accounts) ∙ found, unusable),
      )

  pub block_account_for_job-IsBlockedJob :
      (now : ℕ) (lease : JobLease) (error_class : String) (message : Option String) (a : Unit {0})
      (db next : Database)
      → block_account_for_job now lease error_class message db ≡ ok (a, next)
      → IsBlockedJob lease.job_id next
  unfolding block_account_for_job
  block_account_for_job-IsBlockedJob now lease error_class message a db next h =
      let (updated, mid, wrote, h1) = succeeded _ _ h in
      let (row, mid1, is, h2) = succeeded _ _ h1 in
      let (updated_is, same1) = or_throw-eq-ok _ updated is in
      let (account_id, mid2, owner, h3) = succeeded _ _ h2 in
      let (owner_is, same2) = or_throw-eq-ok _ _ owner in
      let (b, released, closed, h4) = succeeded _ _ h3 in
      let w =
        update_job-eq-ok lease.job_id _ (blocked now error_class) db mid row
          (rw updated_is at wrote) in
      let (n, one, after) = close_running_attempt-eq-ok now lease.job_id _ b mid2 released closed in
      let jobs : released.jobs ≡ replace_job row db.jobs =
        ap (λ (tables : Database). tables.jobs) after
        ∙ (ap (λ (tables : Database). tables.jobs) (same2 ∙ same1)
            ∙ ap (λ (tables : Database). tables.jobs) w.after) in
      let id : row.id ≡ lease.job_id =
        ap (λ (j : Job). j.id) w.is_change ∙ find_job-id lease.job_id db.jobs w.old w.found in
      block_account_of-IsBlockedJob now lease.job_id account_id row row error_class a released next
        (ap (find_job lease.job_id) jobs
          ∙ subst (λ k. find_job k (replace_job row db.jobs) ≡ some row) id
              (find-replace_self row w.old db.jobs (rw id w.found)))
        (record {
          state = ap (λ (j : Job). j.state) w.is_change;
          lease_owner = ap (λ (j : Job). j.lease_owner) w.is_change;
          retryable = ap (λ (j : Job). j.retryable) w.is_change;
          next_retry_at = ap (λ (j : Job). j.next_retry_at) w.is_change;
          owner = owner_is;
        })
        h4
