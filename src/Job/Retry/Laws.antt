-- ===== src/Job/Retry/Laws.antt =====
-- What a retry policy decides.
use pixiv_archive.Prelude.{
  ℕ, suc, ◌-◌, ◌<◌, ◌≤◌, min, List, [], ◌∷◌, ◌≡◌, refl, ap, ◌≢◌, ◌⊎◌, inl, inr, ◌↔◌, Bool, true,
  false, Option, none, some, is_empty, any, length, get_elem?, get_elem?-total, All, All-get_elem?,
  ltb, ok, Bool-cases, Option-cases, List-cases, if◌then◌else◌, arith,
}
use pixiv_archive.Job.ErrorClass.{
  JobErrorClass, network, server, rate_limit, credential_invalid, permanent,
}
use pixiv_archive.Job.Retry.{
  Durations, RetryDecision, RetryPolicy, retry_after, block_account, do_not_retry, new,
  backoff_for_attempt, next_attempt, usable, back_off,
}

-- The classes after which an attempt may be repeated.
pub data IsRetryable : JobErrorClass → Type 0 where
  on_network : IsRetryable network
  on_server : IsRetryable server
  on_rate_limit : IsRetryable rate_limit

module _ ⦃D : Durations⦄ where
  open D use {Duration, at_most_zero, at_least_zero}

  -- There is a delay, and every delay is positive.
  abbrev pub IsUsable : RetryPolicy → Type 0
  IsUsable policy =
      (policy.network_backoff ≢ []) × All (λ d. at_most_zero d ≡ false) policy.network_backoff

  any-false :
      (xs : List Duration) → (any at_most_zero xs ≡ false) ↔ All (λ d. at_most_zero d ≡ false) xs
  any-false [] = (λ _. tt, λ _. refl)
  any-false (x ∷ xs) =
      let (to, from) = any-false xs in
      (λ h. (ground arith, to (ground arith)), λ h. ground (arith, h.0, from h.1))

  -- A policy is made of delays exactly if there is a delay and every delay is positive.
  pub new_iff :
      (delays : List Duration)
      → (new delays ≡ ok (record { network_backoff = delays }))
        ↔ IsUsable (record { network_backoff = delays })
  unfolding new
  new_iff delays = elim (List-cases delays) [
    | inl empty ↦ (λ h. ground arith, λ u. absurd (u.0 empty))
    | inr (d, rest, full) ↦
        let (to, from) = any-false delays in
        (λ h. (λ e. cc (e, full), to (ground arith)), λ u. ground (arith, from u.1))
  ]

  backoff_found :
      (policy : RetryPolicy) (attempt : ℕ)
      → IsUsable policy
      → attempt ≤ length policy.network_backoff
      → (d : Duration) × (backoff_for_attempt policy attempt ≡ ok d)
        × (at_most_zero d ≡ false)
        × (get_elem? policy.network_backoff (attempt - 1) ≡ some d)
  unfolding backoff_for_attempt
  backoff_found policy attempt u le = elim (List-cases policy.network_backoff) [
    | inl empty ↦ absurd (u.0 empty)
    | inr (d, rest, full) ↦
        let sized : length policy.network_backoff ≡ suc (length rest) = ap length full in
        let (delay, at) =
          get_elem?-total policy.network_backoff (attempt - 1) (omega (arith, sized, le)) in
        let index : min (attempt - 1) (length policy.network_backoff - 1) ≡ attempt - 1 =
          omega (arith, sized, le) in
        let some_left : is_empty policy.network_backoff ≡ false = ap is_empty full in
        (
          delay,
          rw (some_left, index, at),
          All-get_elem? (λ d'. at_most_zero d' ≡ false) policy.network_backoff (attempt - 1) delay
              u.1 at,
          at,
        )
  ]

  -- The server has named this delay, which is not negative, with its refusal.
  abbrev pub IsNamed : JobErrorClass → Option Duration → Duration → Type 0
  IsNamed class wished delay =
      (class ≡ rate_limit) × (wished ≡ some delay) × (at_least_zero delay ≡ true)

  -- What the code decides in each case, and the delay it takes.
  abbrev pub IsDue : RetryPolicy → JobErrorClass → ℕ → Option Duration → RetryDecision → Type 0
  IsDue policy class attempt wished (retry_after delay) =
      IsRetryable class
      × (attempt ≤ length policy.network_backoff)
      × (IsNamed class wished delay
          ⊎ ((other : Duration) → ¬ (IsNamed class wished other))
            × (at_most_zero delay ≡ false)
            × (get_elem? policy.network_backoff (attempt - 1) ≡ some delay))
  IsDue policy class attempt wished block_account = class ≡ credential_invalid
  IsDue policy class attempt wished do_not_retry =
      (class ≡ permanent) ⊎ IsRetryable class × (length policy.network_backoff < attempt)

  module _ (policy : RetryPolicy) (usable_policy : IsUsable policy) where
    abbrev IsAnswered : JobErrorClass → ℕ → Option Duration → Type 0
    IsAnswered class attempt wished =
        (d : RetryDecision) × (next_attempt policy class attempt wished ≡ ok d)
        × IsDue policy class attempt wished d

    abbrev exceeds : ℕ → Bool
    exceeds attempt = ltb (length policy.network_backoff) attempt

    over_lt : (attempt : ℕ) → exceeds attempt ≡ true → length policy.network_backoff < attempt
    over_lt attempt h = ground arith

    within_le : (attempt : ℕ) → exceeds attempt ≡ false → attempt ≤ length policy.network_backoff
    within_le attempt h = ground arith

    usable_named :
        (wished : Option Duration) (delay : Duration)
        → usable wished ≡ some delay
        → (wished ≡ some delay) × (at_least_zero delay ≡ true)
    usable_named none delay h = cc
    usable_named (some d) delay h = ground arith

    IsNamed-usable :
        (wished : Option Duration) (other : Duration)
        → usable wished ≡ none
        → ¬ (IsNamed rate_limit wished other)
    IsNamed-usable none other unnamed named = absurd (let e = named.1 in cc)
    IsNamed-usable (some d) other unnamed (limited, given, fits) =
        let same : d ≡ other = cc in ground (arith, fits, same)

    backed_off :
        (class : JobErrorClass)
        → IsRetryable class
        → (attempt : ℕ) (wished : Option Duration) → exceeds attempt ≡ false
        → ((other : Duration) → ¬ (IsNamed class wished other))
        → (d : RetryDecision) × (back_off policy attempt ≡ ok d)
          × IsDue policy class attempt wished d
    backed_off class r attempt wished within unnamed =
        let (d, found, positive, at) =
          backoff_found policy attempt usable_policy (within_le attempt within) in
        (retry_after d, rw found, (r, within_le attempt within, inr (unnamed, positive, at)))

    -- The answer of the two classes that only look at the delays.
    answered :
        (class : JobErrorClass)
        → IsRetryable class
        → class ≢ rate_limit
        → (attempt : ℕ) (wished : Option Duration)
        → (d : RetryDecision) × ((if exceeds attempt
              then ok do_not_retry
              else back_off policy attempt)
            ≡ ok d)
          × IsDue policy class attempt wished d
    answered class r unlimited attempt wished = elim (Bool-cases (exceeds attempt)) [
      | inl over ↦ (do_not_retry, rw over, inr (r, over_lt attempt over))
      | inr within ↦
          let (d, backed, due) =
            backed_off class r attempt wished within (λ other named. unlimited named.0) in
          (d, rw within backed, due)
    ]

    -- With positive delays, an attempt that failed is always answered: with a retry exactly while
    -- the class allows one and the attempts do not exceed the delays, after the delay that the server
    -- named if it limits the rate and named one that is not negative, and after the policy's positive
    -- delay of the attempt in all other cases; with the blocking of the account for a refused
    -- credential; and with the end of the job otherwise.
    pub next_attempt-IsDue :
        (class : JobErrorClass) (attempt : ℕ) (wished : Option Duration)
        → IsAnswered class attempt wished
    unfolding next_attempt
    next_attempt-IsDue credential_invalid attempt wished = (block_account, refl, refl)
    next_attempt-IsDue permanent attempt wished = (do_not_retry, refl, inl refl)
    next_attempt-IsDue network attempt wished = answered network on_network (λ e. cc) attempt wished
    next_attempt-IsDue server attempt wished = answered server on_server (λ e. cc) attempt wished
    next_attempt-IsDue rate_limit attempt wished = elim (Bool-cases (exceeds attempt)) [
      | inl over ↦ (do_not_retry, rw over, inr (on_rate_limit, over_lt attempt over))
      | inr within ↦ elim (Option-cases (usable wished)) [
        | inl unnamed ↦
            let (d, backed, due) =
              backed_off rate_limit on_rate_limit attempt wished within
                (λ other. IsNamed-usable wished other unnamed) in
            (d, rw (within, unnamed) backed, due)
        | inr (delay, named) ↦ (
          retry_after delay,
          rw (within, named),
          (
            on_rate_limit,
            within_le attempt within,
            let (given, fits) = usable_named wished delay named in inl (refl, given, fits),
          ),
        )
      ]
    ]
