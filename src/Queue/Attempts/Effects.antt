-- ===== src/Queue/Attempts/Effects.antt =====
-- What closing and inserting an attempt does to the numbers of the attempts at each job.
use pixiv_archive.Prelude.{
  ℕ, ◌+◌, ◌<◌, ◌≤◌, List, [], ◌∷◌, ◌++◌, Bool, true, false, not, ◌==◌, ==_iff, ◌≡◌, refl, sym, ap,
  ◌∙◌, All, All-imp, ok, arith,
}
use pixiv_archive.Queue.Store.{Documents, Units, Database, Attempt}
use pixiv_archive.Queue.Transact.{succeeded, throw_if-eq-ok, gets-eq-ok}
use pixiv_archive.Queue.Table.{is_running}
use pixiv_archive.Queue.Attempts.{
  Ending, ended, numbers, open_numbers, is_open, end_where, count_where, update_attempts,
  close_attempt, close_running_attempt, insert_attempt,
}
use pixiv_archive.Queue.Attempts.Numbers.{
  Ends, without, count, numbers-end_where, open_numbers-end_where, count_where-is_open,
  numbers-append, open_numbers-append,
}
use pixiv_archive.Queue.Coherence.{IsTracked}

count_singleton : (n k : ℕ) → count n (k ∷ []) ≡ 1 → k ≡ n
count_singleton n k h = ground arith

without_singleton : (n : ℕ) → without n (n ∷ []) ≡ []
without_singleton n = ground arith

-- The closed attempt was the one that ran, and none runs now.
pub close_tracked :
    (id n k : ℕ) (change : Attempt → Attempt) (rows : List Attempt)
    → Ends change
    → count_where (is_open id n) rows ≡ 1
    → IsTracked id k true rows
    → IsTracked id k false (end_where (is_open id n) change rows)
close_tracked id n k change rows ends one t =
    let counted : count n (k ∷ []) ≡ 1 =
      rw (t.opened) at (sym (count_where-is_open id n rows) ∙ one) in
    let same : k ≡ n = count_singleton n k counted in
    record {
      bounded = rw (numbers-end_where (is_open id n) change ends id rows) t.bounded;
      opened =
          rw (open_numbers-end_where id n change ends rows, t.opened, same) (without_singleton n);
    }

pub All-append {ℓ} :
    {A : Type ℓ} (P : A → Type 0) (xs : List A) (x : A) → All P xs → P x → All P (xs ++ x ∷ [])
All-append P [] x h p = (p, tt)
All-append P (y ∷ ys) x h p = (h.0, All-append P ys x h.1 p)

append_nil {ℓ} : {A : Type ℓ} (xs : List A) → xs ++ [] ≡ xs
append_nil [] = refl
append_nil (x ∷ xs) = ap (λ rest. x ∷ rest) (append_nil xs)

-- `rows_affected() != 1` was false.
is_one : (n : ℕ) → not (n == 1) ≡ false → n ≡ 1
is_one n h = ground arith

-- The next attempt is the one that runs.
pub insert_tracked :
    (id k : ℕ) (attempt : Attempt) (rows : List Attempt)
    → attempt.job_id ≡ id
    → attempt.attempt_number ≡ k + 1
    → is_running attempt.state ≡ true
    → IsTracked id k false rows
    → IsTracked id (k + 1) true (rows ++ attempt ∷ [])
insert_tracked id k attempt rows job number active t =
    let here : (attempt.job_id == id) ≡ true = (==_iff attempt.job_id id).1 job in
    record {
      bounded =
          rw (numbers-append id rows attempt, here, number)
            (All-append (λ n. (0 < n) × (n ≤ k + 1)) (numbers id rows) (k + 1)
              (All-imp (λ n. (0 < n) × (n ≤ k)) (λ n. (0 < n) × (n ≤ k + 1)) (numbers id rows)
                (λ n h. (h.0, omega (arith, h.1))) t.bounded)
              (omega arith, omega arith));
      opened = rw (open_numbers-append id rows attempt, here, active, t.opened, number) refl;
    }

pub insert_others :
    (id other : ℕ) (attempt : Attempt) (rows : List Attempt)
    → attempt.job_id ≡ id
    → (id == other) ≡ false
    → (numbers other (rows ++ attempt ∷ []) ≡ numbers other rows)
      × (open_numbers other (rows ++ attempt ∷ []) ≡ open_numbers other rows)
insert_others id other attempt rows job apart =
    let away : (attempt.job_id == other) ≡ false = rw job apart in
    (
      rw (numbers-append other rows attempt, away) (append_nil (numbers other rows)),
      rw (open_numbers-append other rows attempt, away) (append_nil (open_numbers other rows)),
    )

module _ ⦃J : Documents⦄ ⦃U : Units⦄ where
  update_attempts-eq-ok :
      (test : Attempt → Bool) (change : Attempt → Attempt) (closed : ℕ) (db next : Database)
      → update_attempts test change db ≡ ok (closed, next)
      → (closed ≡ count_where test db.attempts)
        × (next ≡ record db { attempts = end_where test change db.attempts })
  unfolding update_attempts
  update_attempts-eq-ok test change closed db next h = (ground arith, ground arith)

  pub close_attempt-eq-ok :
      (id n : ℕ) (change : Attempt → Attempt) (a : Unit {0}) (db next : Database)
      → close_attempt id n change db ≡ ok (a, next)
      → (count_where (is_open id n) db.attempts ≡ 1)
        × (next ≡ record db { attempts = end_where (is_open id n) change db.attempts })
  unfolding close_attempt
  close_attempt-eq-ok id n change a db next h =
      let (closed, mid, done, checked) = succeeded _ _ h in
      let (counted, after) = update_attempts-eq-ok (is_open id n) change closed db mid done in
      let (one, last) = throw_if-eq-ok _ _ checked in
      (sym counted ∙ is_one closed one, last ∙ after)

  -- The attempt that was closed is the one that was open under some number.
  pub close_running_attempt-eq-ok :
      (now id : ℕ) (ending : Ending) (a : Unit {0}) (db next : Database)
      → close_running_attempt now id ending db ≡ ok (a, next)
      → (n : ℕ) × (count_where (is_open id n) db.attempts ≡ 1)
        × (next ≡ record db { attempts = end_where (is_open id n) (ended ending now) db.attempts })
  unfolding close_running_attempt
  close_running_attempt-eq-ok now id ending a db next h =
      let (n, mid, got, closed) = succeeded _ _ h in
      let (at, same) = gets-eq-ok _ got in
      let (one, after) =
        close_attempt-eq-ok id n (ended ending now) a db next (rw (← same) at closed) in
      (n, one, after)

  pub insert_attempt-eq-ok :
      (attempt : Attempt) (a : Unit {0}) (db next : Database)
      → insert_attempt attempt db ≡ ok (a, next)
      → next ≡ record db { attempts = db.attempts ++ attempt ∷ [] }
  unfolding insert_attempt
  insert_attempt-eq-ok attempt a db next h = ground arith
