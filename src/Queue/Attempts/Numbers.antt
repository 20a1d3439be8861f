-- ===== src/Queue/Attempts/Numbers.antt =====
-- The numbers of the attempts at a job, and of those that run, after an update and an insertion.
use pixiv_archive.Prelude.{
  ℕ, suc, ◌<◌, ◌≤◌, List, [], ◌∷◌, ◌++◌, Bool, false, ◌&&◌, if◌then◌else◌, ◌==◌, ◌≡◌, refl, inl,
  inr, All, Any, arith,
}
use pixiv_archive.Queue.Store.{Attempt}
use pixiv_archive.Queue.Table.{is_running}
use pixiv_archive.Queue.Attempts.{numbers, open_numbers, highest, is_open, end_where, count_where}

-- A change that ends an attempt, and leaves its job and number.
pub record Ends (change : Attempt → Attempt) : Type 0 where
  pub job_id : (attempt : Attempt) → (change attempt).job_id ≡ attempt.job_id
  pub number : (attempt : Attempt) → (change attempt).attempt_number ≡ attempt.attempt_number
  pub closed : (attempt : Attempt) → is_running (change attempt).state ≡ false

abbrev pub without : ℕ → List ℕ → List ℕ
without n [] = []
without n (m ∷ ms) = let rest = without n ms in if m == n then rest else m ∷ rest

abbrev pub count : ℕ → List ℕ → ℕ
count n [] = 0
count n (m ∷ ms) = let rest = count n ms in if m == n then suc rest else rest

module _ (test : Attempt → Bool) (change : Attempt → Attempt) (ends : Ends change) where
  pub numbers-end_where :
      (id : ℕ) (attempts : List Attempt)
      → numbers id (end_where test change attempts) ≡ numbers id attempts
  unfolding numbers end_where
  numbers-end_where id [] = refl
  numbers-end_where id (attempt ∷ rest) =
      ground (arith, ends.job_id attempt, ends.number attempt, numbers-end_where id rest)

module _ (id n : ℕ) (change : Attempt → Attempt) (ends : Ends change) where
  pub open_numbers-end_where :
      (attempts : List Attempt)
      → open_numbers id (end_where (is_open id n) change attempts)
        ≡ without n (open_numbers id attempts)
  unfolding open_numbers end_where
  open_numbers-end_where [] = refl
  open_numbers-end_where (attempt ∷ rest) = ground (
    arith,
    ends.job_id attempt,
    ends.number attempt,
    ends.closed attempt,
    open_numbers-end_where rest,
  )

  pub open_numbers-end_other :
      (other : ℕ) (attempts : List Attempt)
      → (id == other) ≡ false
      → open_numbers other (end_where (is_open id n) change attempts) ≡ open_numbers other attempts
  unfolding open_numbers end_where
  open_numbers-end_other other [] h = refl
  open_numbers-end_other other (attempt ∷ rest) h = ground (
    arith,
    ends.job_id attempt,
    ends.number attempt,
    ends.closed attempt,
    open_numbers-end_other other rest,
  )

pub count_where-is_open :
    (id n : ℕ) (attempts : List Attempt)
    → count_where (is_open id n) attempts ≡ count n (open_numbers id attempts)
unfolding count_where open_numbers
count_where-is_open id n [] = refl
count_where-is_open id n (attempt ∷ rest) = ground (arith, count_where-is_open id n rest)

pub numbers-append :
    (id : ℕ) (attempts : List Attempt) (attempt : Attempt)
    → numbers id (attempts ++ attempt ∷ [])
      ≡ numbers id attempts ++ (if attempt.job_id == id then attempt.attempt_number ∷ [] else [])
unfolding numbers
numbers-append id [] attempt = refl
numbers-append id (other ∷ rest) attempt = ground (arith, numbers-append id rest attempt)

pub open_numbers-append :
    (id : ℕ) (attempts : List Attempt) (attempt : Attempt)
    → open_numbers id (attempts ++ attempt ∷ [])
      ≡ open_numbers id attempts
        ++ (if attempt.job_id == id && is_running attempt.state
            then attempt.attempt_number ∷ []
            else [])
unfolding open_numbers
open_numbers-append id [] attempt = refl
open_numbers-append id (other ∷ rest) attempt = ground (arith, open_numbers-append id rest attempt)

-- An attempt that runs is an attempt.
pub open_numbers-sub :
    (id n : ℕ) (attempts : List Attempt)
    → Any (λ m. m ≡ n) (open_numbers id attempts)
    → Any (λ m. m ≡ n) (numbers id attempts)
unfolding open_numbers numbers
open_numbers-sub id n [] h = h
open_numbers-sub id n (attempt ∷ rest) h = ground (arith, open_numbers-sub id n rest)

pub open_numbers-nil :
    (id : ℕ) (attempts : List Attempt) → numbers id attempts ≡ [] → open_numbers id attempts ≡ []
unfolding open_numbers numbers
open_numbers-nil id [] h = refl
open_numbers-nil id (attempt ∷ rest) h = ground (arith, open_numbers-nil id rest)

highest-le : (k : ℕ) (ns : List ℕ) → All (λ n. (0 < n) × (n ≤ k)) ns → highest ns ≤ k
unfolding highest
highest-le k [] h = omega arith
highest-le k (n ∷ ns) h = omega (arith, highest-le k ns h.1)

le-highest : (k : ℕ) (ns : List ℕ) → Any (λ n. n ≡ k) ns → k ≤ highest ns
unfolding highest
le-highest k [] h = absurd h
le-highest k (n ∷ ns) (inl e) = omega arith
le-highest k (n ∷ ns) (inr later) = omega (arith, le-highest k ns later)

-- The largest of the numbers, if it is one of them.
pub highest_lem :
    (k : ℕ) (ns : List ℕ) → All (λ n. (0 < n) × (n ≤ k)) ns → Any (λ n. n ≡ k) ns → highest ns ≡ k
highest_lem k ns h at = omega (arith, highest-le k ns h, le-highest k ns at)
