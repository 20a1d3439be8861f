-- ===== src/Job/Policy/Slots.antt =====
-- The slots that the mappings fill.
use pixiv_archive.Prelude.{
  ℕ, zero, suc, ◌<◌, List, [], ◌∷◌, ◌++◌, ◌≡◌, refl, sym, ap, ◌∙◌, ◌≢◌, inl, inr, Bool, true, false,
  Option, none, some, if◌then◌else◌, length, get_elem?, get_elem?-total, Outcome, ok, err, panicked,
  Option-cases, arith,
}
use pixiv_archive.Job.Priority.{JobPriority}
use pixiv_archive.Job.Kind.{JobKind, JobKind-discrete, all_kinds, index}
use pixiv_archive.Job.Policy.{
  JobPriorityMapping, JobPriorityPolicyError, missing, duplicate, set_slot, fill,
}

same_kind : JobKind → JobKind → Bool
unfolding JobKind-discrete
same_kind a b = elim (JobKind-discrete a b) [ yes _ ↦ true | no _ ↦ false ]

-- The priorities that the mappings give to a kind, in order.
unfoldable pub assigned : List JobPriorityMapping → JobKind → List JobPriority
unfolding same_kind
assigned [] kind = []
assigned (m ∷ mappings) kind =
    let rest = assigned mappings kind in
    if same_kind m.job_kind kind then m.priority ∷ rest else rest

index-all_kinds : (kind : JobKind) → get_elem? all_kinds (index kind) ≡ some kind
unfolding index
index-all_kinds kind = ground arith

pub index_lt : (kind : JobKind) → index kind < 9
unfolding index
index_lt kind = ground arith

index-injective : (a b : JobKind) → index a ≡ index b → a ≡ b
index-injective a b h = cc (index-all_kinds a, index-all_kinds b, h)

length-set_slot :
    (slots : List (Option JobPriority)) (i : ℕ) (slot : Option JobPriority)
    → length (set_slot slots i slot) ≡ length slots
unfolding set_slot
length-set_slot [] i slot = refl
length-set_slot (s ∷ slots) zero slot = refl
length-set_slot (s ∷ slots) (suc i) slot = ap suc (length-set_slot slots i slot)

get_elem?-set_slot :
    (slots : List (Option JobPriority)) (i : ℕ) (slot : Option JobPriority)
    → i < length slots
    → get_elem? (set_slot slots i slot) i ≡ some slot
unfolding set_slot
get_elem?-set_slot [] i slot h = absurd (omega (arith, h))
get_elem?-set_slot (s ∷ slots) zero slot h = refl
get_elem?-set_slot (s ∷ slots) (suc i) slot h = get_elem?-set_slot slots i slot (omega (arith, h))

get_elem?-set_slot_ne :
    (slots : List (Option JobPriority)) (i j : ℕ) (slot : Option JobPriority)
    → i ≢ j
    → get_elem? (set_slot slots i slot) j ≡ get_elem? slots j
unfolding set_slot
get_elem?-set_slot_ne [] i j slot h = refl
get_elem?-set_slot_ne (s ∷ slots) zero zero slot h = absurd (h refl)
get_elem?-set_slot_ne (s ∷ slots) zero (suc j) slot h = refl
get_elem?-set_slot_ne (s ∷ slots) (suc i) zero slot h = refl
get_elem?-set_slot_ne (s ∷ slots) (suc i) (suc j) slot h =
    get_elem?-set_slot_ne slots i j slot (λ e. h (ap suc e))

-- What a slot holds, as a list.
abbrev pub held : Option (Option JobPriority) → List JobPriority
held (some (some priority)) = priority ∷ []
held _ = []

-- The priorities that a kind has, by the slots and then by the mappings.
abbrev pub given : List (Option JobPriority) → List JobPriorityMapping → JobKind → List JobPriority
given slots mappings kind = held (get_elem? slots (index kind)) ++ assigned mappings kind

-- What the loop returns: the slots give each kind what the mappings gave, or some kind has two
-- priorities at least.
abbrev pub IsFilled :
    List (Option JobPriority)
    → List JobPriorityMapping
    → Outcome JobPriorityPolicyError (List (Option JobPriority))
    → Type 0
IsFilled slots mappings (ok filled) =
    (length filled ≡ length slots)
    × ((kind : JobKind) → given filled [] kind ≡ given slots mappings kind)
IsFilled slots mappings (err (duplicate kind)) =
    (a b : JobPriority) × (rest : List JobPriority) × (given slots mappings kind ≡ a ∷ b ∷ rest)
IsFilled slots mappings (err (missing kind)) = ⊥
IsFilled slots mappings panicked = ⊥

abbrev Chosen : {a b : JobKind} → Dec (a ≡ b) → Bool → Type 0
Chosen d value = elim d [ yes _ ↦ true | no _ ↦ false ] ≡ value

same_kind-eq : (a b : JobKind) → a ≡ b → same_kind a b ≡ true
unfolding same_kind
same_kind-eq a b e = elim (JobKind-discrete a b) as (λ d. Chosen d true) [
  | yes _ ↦ refl
  | no n ↦ absurd (n e)
]

same_kind-ne : (a b : JobKind) → a ≢ b → same_kind a b ≡ false
unfolding same_kind
same_kind-ne a b h = elim (JobKind-discrete a b) as (λ d. Chosen d false) [
  | yes e ↦ absurd (h e)
  | no _ ↦ refl
]

module _ (slots : List (Option JobPriority)) (m : JobPriorityMapping)
    (rest : List JobPriorityMapping) (in_range : index m.job_kind < length slots) where
  -- Filling an empty slot gives each kind what the mapping was to give it.
  given-set_slot :
      get_elem? slots (index m.job_kind) ≡ some none
      → (kind : JobKind)
      → given (set_slot slots (index m.job_kind) (some m.priority)) rest kind
        ≡ given slots (m ∷ rest) kind
  unfolding assigned
  given-set_slot free kind = elim (JobKind-discrete m.job_kind kind) [
    | yes same ↦ rw (
      ← same,
      get_elem?-set_slot slots (index m.job_kind) (some m.priority) in_range,
      free,
      same_kind-eq m.job_kind m.job_kind refl,
    )
    | no other ↦ rw (
      get_elem?-set_slot_ne slots (index m.job_kind) (index kind) (some m.priority)
          (λ e. other (index-injective m.job_kind kind e)),
      same_kind-ne m.job_kind kind other,
    )
  ]

  IsFilled-next :
      (slots' : List (Option JobPriority))
      (o : Outcome JobPriorityPolicyError (List (Option JobPriority)))
      → length slots' ≡ length slots
      → ((kind : JobKind) → given slots' rest kind ≡ given slots (m ∷ rest) kind)
      → IsFilled slots' rest o
      → IsFilled slots (m ∷ rest) o
  IsFilled-next slots' (ok filled) sized same h = (h.0 ∙ sized, λ kind. h.1 kind ∙ same kind)
  IsFilled-next slots' (err (duplicate kind)) sized same h = (h.0, h.1, h.2, sym (same kind) ∙ h.3)
  IsFilled-next slots' (err (missing kind)) sized same h = h
  IsFilled-next slots' panicked sized same h = h

  given-duplicate :
      (p : JobPriority)
      → get_elem? slots (index m.job_kind) ≡ some (some p)
      → given slots (m ∷ rest) m.job_kind ≡ p ∷ m.priority ∷ assigned rest m.job_kind
  unfolding assigned
  given-duplicate p taken = rw (taken, same_kind-eq m.job_kind m.job_kind refl)

pub fill-IsFilled :
    (slots : List (Option JobPriority)) (mappings : List JobPriorityMapping)
    → length slots ≡ 9
    → IsFilled slots mappings (fill mappings slots)
unfolding fill
fill-IsFilled slots [] sized = (refl, λ kind. refl)
fill-IsFilled slots (m ∷ rest) sized =
    let in_range : index m.job_kind < length slots = omega (arith, index_lt m.job_kind, sized) in
    let (slot, at) = get_elem?-total slots (index m.job_kind) in_range in
    elim (Option-cases slot) [
      | inl free ↦
          let free_slot = at ∙ ap some free in
          rw (free_slot, fill)
            (IsFilled-next slots m rest in_range
              (set_slot slots (index m.job_kind) (some m.priority)) _
              (length-set_slot slots (index m.job_kind) (some m.priority))
              (given-set_slot slots m rest in_range free_slot)
              (fill-IsFilled (set_slot slots (index m.job_kind) (some m.priority)) rest
                (length-set_slot slots (index m.job_kind) (some m.priority) ∙ sized)))
      | inr (p, taken) ↦
          let taken_slot = at ∙ ap some taken in
          rw (taken_slot, fill)
            (
              p,
              m.priority,
              assigned rest m.job_kind,
              given-duplicate slots m rest in_range p taken_slot,
            )
    ]
