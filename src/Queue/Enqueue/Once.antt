-- ===== src/Queue/Enqueue/Once.antt =====
-- The download of a work is put in the queue once (crates/db/src/jobs/enqueue.rs).
use pixiv_archive.Prelude.{
  ℕ, List, [], ◌∷◌, ◌++◌, true, Option, none, some, String, match_text, str_eq_iff, ◌≡◌, refl, sym,
  ap, ◌∙◌, ok, arith,
}
use mathlib.Core.Path.{subst}
use pixiv_archive.Job.Priority.{JobPriority}
use pixiv_archive.Job.Kind
use pixiv_archive.Job.Kind.{JobKind, known_kind}
use pixiv_archive.Subscription.Account.{PixivAccountState}
use pixiv_archive.Queue.Store.{Documents, Units, Database, Job, JobLease, pure, gets}
use pixiv_archive.Queue.Transact.{succeeded, then_ok, pure-eq-ok, gets-eq-ok, or_throw-eq-ok}
use pixiv_archive.Queue.Table.{same_state}
use pixiv_archive.Queue.Coherence.Aside.{Aside-append_event}
use pixiv_archive.Queue.Insertion.{first_row, enqueue_in_tx}
use pixiv_archive.Queue.Enqueue.{
  new_job, for_kind, is_download, is_pending_download, oldest_download, enqueue_unless,
  enqueue_download_if_absent_with_lease,
}
use pixiv_archive.Queue.Insertion.Grows.{insert_job-eq-ok}

module _ ⦃J : Documents⦄ ⦃U : Units⦄ where
  open J use {Value, text_field, object}

  oldest-append :
      (work : String) (jobs : List Job) (row : Job)
      → oldest_download work jobs ≡ none
      → is_pending_download work row ≡ true
      → oldest_download work (jobs ++ row ∷ []) ≡ some row
  unfolding oldest_download
  oldest-append work [] row h pending = rw pending refl
  oldest-append work (job ∷ rest) row h pending = ground (arith, oldest-append work rest row)

  abbrev download : String → String → Value
  download work_id pixiv_work_id =
      object (("pixiv_work_id", pixiv_work_id) ∷ ("work_id", work_id) ∷ [])

  download_kind :
      (kind : JobKind)
      → known_kind (Kind.as_str Kind.download_media) ≡ some kind
      → kind ≡ Kind.download_media
  unfolding known_kind match_text Kind.as_str
  download_kind kind h = cc

  new_row_pending :
      (now id account_id utc_now : ℕ) (priority : JobPriority) (work_id pixiv_work_id : String)
      (kind : JobKind) (state : Option PixivAccountState)
      → kind ≡ Kind.download_media
      → text_field (download work_id pixiv_work_id) "pixiv_work_id" ≡ some pixiv_work_id
      → is_pending_download pixiv_work_id (
          first_row now id
            (record (for_kind utc_now priority Kind.download_media
              (download work_id pixiv_work_id)) { pixiv_account_id = some account_id })
            kind
            state)
        ≡ true
  unfolding is_pending_download first_row for_kind new_job is_download same_state
  new_row_pending now id account_id utc_now priority work_id pixiv_work_id kind none is reads =
      rw (is, reads, (str_eq_iff pixiv_work_id pixiv_work_id).1 refl) refl
  new_row_pending now id account_id utc_now priority work_id pixiv_work_id kind (some state) is
        reads =
      rw (is, reads, (str_eq_iff pixiv_work_id pixiv_work_id).1 refl) (ground arith)

  enqueued :
      (now utc_now id account_id : ℕ) (priority : JobPriority) (work_id pixiv_work_id : String)
      (answer : ℕ) (db next : Database)
      → oldest_download pixiv_work_id db.jobs ≡ none
      → text_field (download work_id pixiv_work_id) "pixiv_work_id" ≡ some pixiv_work_id
      → enqueue_in_tx now id
          (record (for_kind utc_now priority Kind.download_media (download work_id pixiv_work_id)) {
            pixiv_account_id = some account_id;
          })
          db
        ≡ ok (answer, next)
      → (row : Job) × (oldest_download pixiv_work_id next.jobs ≡ some row) × (row.id ≡ answer)
  unfolding enqueue_in_tx first_row for_kind new_job
  enqueued now utc_now id account_id priority work_id pixiv_work_id answer db next absent reads h =
      let (kind, db1, known, h1) = succeeded _ _ h in
      let (kind_is, same1) = or_throw-eq-ok _ _ known in
      let (state, db2, looked, h2) = succeeded _ _ h1 in
      let (state_is, same2) = gets-eq-ok _ looked in
      let here : db2 ≡ db = sym same2 ∙ same1 in
      let (a, db3, put, h3) = succeeded _ _ h2 in
      let row : Job =
        first_row now id
          (record (for_kind utc_now priority Kind.download_media (download work_id pixiv_work_id)) {
            pixiv_account_id = some account_id;
          })
          kind state in
      let (fresh, fine, after) = insert_job-eq-ok row _ a db2 db3 put in
      let (b, db4, told, h4) = succeeded _ _ h3 in
      let (is, end) = pure-eq-ok id answer h4 in
      let jobs : next.jobs ≡ db.jobs ++ row ∷ [] =
        sym (ap (λ (tables : Database). tables.jobs) end)
        ∙ (((Aside-append_event id _).at db3 b db4 told).jobs
            ∙ (ap (λ (tables : Database). tables.jobs) after
                ∙ ap (λ (tables : Database). tables.jobs ++ row ∷ []) here)) in
      (
        row,
        rw jobs (
            oldest-append pixiv_work_id db.jobs row absent (
              new_row_pending now id account_id utc_now priority work_id pixiv_work_id kind state
                (download_kind kind kind_is) reads)),
        is,
      )

  -- After a request for a download, the queue holds a pending download of the work, and its number
  -- is the answer.
  pending_after :
      (now utc_now id account_id : ℕ) (work_id pixiv_work_id : String) (priority : JobPriority)
      (existing : Option Job) (answer : ℕ) (db next : Database)
      → oldest_download pixiv_work_id db.jobs ≡ existing
      → text_field (download work_id pixiv_work_id) "pixiv_work_id" ≡ some pixiv_work_id
      → enqueue_unless now id account_id
          (for_kind utc_now priority Kind.download_media (download work_id pixiv_work_id))
          existing
          db
        ≡ ok (answer, next)
      → (row : Job) × (oldest_download pixiv_work_id next.jobs ≡ some row) × (row.id ≡ answer)
  unfolding enqueue_unless
  pending_after now utc_now id account_id work_id pixiv_work_id priority (some existing) answer db
        next found reads h =
      let (is, end) = pure-eq-ok existing.id answer h in (existing, rw (sym end) found, is)
  pending_after now utc_now id account_id work_id pixiv_work_id priority none answer db next found
        reads h =
      enqueued now utc_now id account_id priority work_id pixiv_work_id answer db next found reads h

  requested :
      (now utc_now id account_id : ℕ) (lease : Option JobLease) (work_id pixiv_work_id : String)
      (priority : JobPriority) (answer : ℕ) (db mid : Database)
      → text_field (download work_id pixiv_work_id) "pixiv_work_id" ≡ some pixiv_work_id
      → enqueue_download_if_absent_with_lease now utc_now id lease account_id work_id pixiv_work_id
          priority db
        ≡ ok (answer, mid)
      → (row : Job) × (oldest_download pixiv_work_id mid.jobs ≡ some row) × (row.id ≡ answer)
  unfolding enqueue_download_if_absent_with_lease
  requested now utc_now id account_id lease work_id pixiv_work_id priority answer db mid reads h =
      let (a, db1, locked, h1) = succeeded _ _ h in
      let (existing, db2, looked, h2) = succeeded _ _ h1 in
      let (found, same) = gets-eq-ok _ looked in
      pending_after now utc_now id account_id work_id pixiv_work_id priority existing answer db2 mid
        (subst (λ (tables : Database). oldest_download pixiv_work_id tables.jobs ≡ existing) same
          found)
        reads h2

  found_again :
      (now utc_now id account_id : ℕ) (work_id pixiv_work_id : String) (priority : JobPriority)
      (row : Job) (db : Database)
      → oldest_download pixiv_work_id db.jobs ≡ some row
      → enqueue_download_if_absent_with_lease now utc_now id none account_id work_id pixiv_work_id
          priority db
        ≡ ok (row.id, db)
  unfolding enqueue_download_if_absent_with_lease enqueue_unless gets pure
  found_again now utc_now id account_id work_id pixiv_work_id priority row db there =
      then_ok _ _ {mid = db} {a = tt} refl
        (then_ok _ _ {mid = db} {a = oldest_download pixiv_work_id db.jobs} refl (rw there refl))

  -- If a JSON object gives back the text of the work's number, a request for a download, with or
  -- without a lease, that succeeds is answered by the number of a job; and a request for the same
  -- work without a lease, made next, with whatever account, priority and new number, is answered by
  -- the same job and changes nothing.
  pub enqueue_download_once :
      (now utc_now id account_id now' utc_now' id' account_id' : ℕ) (lease : Option JobLease)
      (work_id pixiv_work_id work_id' : String) (priority priority' : JobPriority) (answer : ℕ)
      (db mid : Database)
      → text_field (download work_id pixiv_work_id) "pixiv_work_id" ≡ some pixiv_work_id
      → enqueue_download_if_absent_with_lease now utc_now id lease account_id work_id pixiv_work_id
          priority db
        ≡ ok (answer, mid)
      → enqueue_download_if_absent_with_lease now' utc_now' id' none account_id' work_id'
          pixiv_work_id priority' mid
        ≡ ok (answer, mid)
  enqueue_download_once now utc_now id account_id now' utc_now' id' account_id' lease work_id
        pixiv_work_id work_id' priority priority' answer db mid reads h =
      let (row, there, is) =
        requested now utc_now id account_id lease work_id pixiv_work_id priority answer db mid reads
          h in
      subst
        (λ n.
          enqueue_download_if_absent_with_lease now' utc_now' id' none account_id' work_id'
            pixiv_work_id priority' mid
          ≡ ok (n, mid))
        is
        (found_again now' utc_now' id' account_id' work_id' pixiv_work_id priority' row mid there)
