-- ===== src/Rule/Operator/Laws.antt =====
-- `supports` and the table of the operators of a type (rule/operator.rs).
use mathlib.Core.List.{Memᴰ}
use pixiv_archive.Prelude.{
  List, [], ◌∷◌, ◌≡◌, refl, ◌↔◌, inl, inr, true, false, Bool-cases, any, arith,
}
use pixiv_archive.Rule.Field.{FieldType}
use pixiv_archive.Rule.Operator.{
  RuleOperator, RuleOperator-discrete, same_operator, supports, for_type,
}

abbrev Chosen : {a b : RuleOperator} → Dec (a ≡ b) → Type 0
Chosen d = elim d [ yes _ ↦ true | no _ ↦ false ] ≡ true

same_operator-eq : (a b : RuleOperator) → same_operator a b ≡ true → a ≡ b
unfolding same_operator
same_operator-eq a b = elim (RuleOperator-discrete a b) as (λ d. Chosen d → a ≡ b) [
  | yes e ↦ λ _. e
  | no _ ↦ λ h. cc
]

same_operator_refl : (a b : RuleOperator) → a ≡ b → same_operator a b ≡ true
unfolding same_operator
same_operator_refl a b e = elim (RuleOperator-discrete a b) as (λ d. Chosen d) [
  | yes _ ↦ refl
  | no n ↦ absurd (n e)
]

any-same :
    (operator : RuleOperator) (operators : List RuleOperator)
    → any (same_operator operator) operators ≡ true
    → Memᴰ operator operators
any-same operator [] h = cc
any-same operator (o ∷ os) h = elim (Bool-cases (same_operator operator o)) [
  | inl same ↦ Memᴰ.head (same_operator-eq operator o same)
  | inr other ↦ Memᴰ.tail (any-same operator os (rw other at h))
]

same-any :
    {operator : RuleOperator} {operators : List RuleOperator}
    → Memᴰ operator operators
    → any (same_operator operator) operators ≡ true
same-any (Memᴰ.head e) = rw (same_operator_refl _ _ e)
same-any {operator} {operators = o ∷ os} (Memᴰ.tail m) = ground (arith, same-any m)

-- An operator supports a field type exactly if the table of the type lists it.
pub supports_iff :
    (operator : RuleOperator) (field_type : FieldType)
    → (supports operator field_type ≡ true) ↔ Memᴰ operator (for_type field_type)
unfolding supports
supports_iff operator field_type = (any-same operator (for_type field_type), same-any)
