-- ===== src/Queue/Claiming/Choice.antt =====
-- Which job a claim takes (crates/db/src/jobs/claiming.rs).
use pixiv_archive.Prelude.{
  ℕ, List, [], ◌∷◌, Bool, true, false, not, ◌&&◌, Option, none, some, if◌then◌else◌, ◌==◌, ==_iff,
  ◌≡◌, refl, sym, ◌∙◌, inl, inr, Bool-cases, All, All-imp, arith,
}
use pixiv_archive.Job.Selection.{JobQuotaSelection}
use pixiv_archive.Queue.Store.{Documents, Job}
use pixiv_archive.Queue.Table.{find_job}
use pixiv_archive.Queue.Coherence.{IsKeyed}
use pixiv_archive.Queue.Claiming.{can_claim, claim_order, comes_before, candidate}

asymmetric : (a b : ℕ × ℕ × ℕ) → comes_before a b ≡ true → comes_before b a ≡ false
unfolding comes_before
asymmetric (a, b, c) (a', b', c') h = ground arith

irreflexive : (a : ℕ × ℕ × ℕ) → comes_before a a ≡ false
unfolding comes_before
irreflexive (a, b, c) = ground arith

not_before_trans :
    (a b c : ℕ × ℕ × ℕ)
    → comes_before a b ≡ false
    → comes_before b c ≡ false
    → comes_before a c ≡ false
unfolding comes_before
not_before_trans (a, b, c) (a', b', c') (a'', b'', c'') h k = ground arith

module _ ⦃J : Documents⦄ (locked : ℕ → Bool) (now : ℕ) (selection : JobQuotaSelection) where
  -- The row can be claimed, and no other transaction has it locked.
  abbrev pub is_free : Job → Bool
  is_free job = can_claim now selection job && not (locked job.id)

  -- No free row comes before it.
  abbrev pub IsFirst : Job → List Job → Type 0
  IsFirst job jobs =
      All
        (λ other.
          is_free other ≡ true
          → comes_before (claim_order selection other) (claim_order selection job) ≡ false)
        jobs

  -- What the choice promises of its answer.
  abbrev pub IsChoice : Option Job → List Job → Type 0
  IsChoice none jobs = All (λ job. is_free job ≡ false) jobs
  IsChoice (some job) jobs =
      (is_free job ≡ true) × (IsKeyed jobs → find_job job.id jobs ≡ some job) × IsFirst job jobs

  find_later :
      (head job : Job) (rest : List Job)
      → find_job job.id rest ≡ some job
      → find_job head.id rest ≡ none
      → find_job job.id (head ∷ rest) ≡ some job
  unfolding find_job
  find_later head job rest at fresh = elim (Bool-cases (head.id == job.id)) [
    | inl same ↦
        absurd
          (let e : none ≡ some job = sym fresh ∙ (rw ((==_iff head.id job.id).0 same) at) in cc)
    | inr apart ↦ rw apart at
  ]

  find_head : (head : Job) (rest : List Job) → find_job head.id (head ∷ rest) ≡ some head
  unfolding find_job
  find_head head rest = rw ((==_iff head.id head.id).1 refl)

  -- A free head, against the choice from the rest.
  better : Job → Option Job → Option Job
  better job none = some job
  better job (some other) =
      if comes_before (claim_order selection other) (claim_order selection job)
      then some other
      else some job

  candidate-cons :
      (job : Job) (rest : List Job)
      → candidate locked now selection (job ∷ rest) ≡ (
          if is_free job
          then better job (candidate locked now selection rest)
          else candidate locked now selection rest)
  unfolding candidate better
  candidate-cons job rest = ground arith

  better-IsChoice :
      (job : Job) (choice : Option Job) (rest : List Job)
      → is_free job ≡ true
      → IsChoice choice rest
      → IsChoice (better job choice) (job ∷ rest)
  unfolding better
  better-IsChoice job none rest free h = (
    free,
    λ keyed. find_head job rest,
    (
      λ self. irreflexive (claim_order selection job),
      All-imp (λ other. is_free other ≡ false)
          (λ other.
            is_free other ≡ true
            → comes_before (claim_order selection other) (claim_order selection job) ≡ false)
          rest (λ other taken is_not. absurd (let e : true ≡ false = sym is_not ∙ taken in cc)) h,
    ),
  )
  better-IsChoice job (some other) rest free (free', at, first) =
      elim (Bool-cases (comes_before (claim_order selection other) (claim_order selection job))) [
        | inl before ↦ rw before (
          free',
          λ keyed. find_later job other rest (at keyed.1) keyed.0,
          (λ self. asymmetric _ _ before, first),
        )
        | inr not_before ↦ rw not_before (
          free,
          λ keyed. find_head job rest,
          (
            λ self. irreflexive (claim_order selection job),
            All-imp
                (λ third.
                  is_free third ≡ true
                  → comes_before (claim_order selection third) (claim_order selection other)
                    ≡ false)
                (λ third.
                  is_free third ≡ true
                  → comes_before (claim_order selection third) (claim_order selection job) ≡ false)
                rest
                (λ third known is.
                  not_before_trans (claim_order selection third) (claim_order selection other)
                    (claim_order selection job) (known is) not_before)
                first,
          ),
        )
      ]

  taken_later :
      (job : Job) (choice : Option Job) (rest : List Job)
      → is_free job ≡ false
      → IsChoice choice rest
      → IsChoice choice (job ∷ rest)
  taken_later job none rest taken h = (taken, h)
  taken_later job (some other) rest taken (free, at, first) = (
    free,
    λ keyed. find_later job other rest (at keyed.1) keyed.0,
    (λ self. absurd (let e : true ≡ false = sym self ∙ taken in cc), first),
  )

  candidate-nil : candidate locked now selection [] ≡ none
  unfolding candidate
  candidate-nil = refl

  pub candidate-IsChoice : (jobs : List Job) → IsChoice (candidate locked now selection jobs) jobs
  candidate-IsChoice [] = rw candidate-nil tt
  candidate-IsChoice (job ∷ rest) = elim (Bool-cases (is_free job)) [
    | inl free ↦
        rw (candidate-cons job rest, free)
          (better-IsChoice job _ rest free (candidate-IsChoice rest))
    | inr taken ↦
        rw (candidate-cons job rest, taken) (taken_later job _ rest taken (candidate-IsChoice rest))
  ]
