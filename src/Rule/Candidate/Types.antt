-- ===== src/Rule/Candidate/Types.antt =====
-- The types of the values of fields (rule/evaluator.rs and rule/field.rs).
use pixiv_archive.Prelude.{◌≡◌, some, arith}
use pixiv_archive.Rule.Platform.{Platform}
use pixiv_archive.Rule.Field.{
  FieldScope, RuleField, scope, value_type, page_original_extension, page_width, page_height,
  page_aspect_ratio, page_orientation,
}
use pixiv_archive.Rule.Value.{FieldValue}
use pixiv_archive.Rule.Candidate.{RuleCandidate, PageRuleMetadata, work_value, page_value}
use pixiv_archive.Rule.ValueTest.Complement.{type_of}

module _ ⦃P : Platform⦄ where
  -- A value read from a work alone has the type that its field declares, and the field is scoped
  -- to works: no page-scoped field has a value without a page.
  pub work_value-typed :
      (field : RuleField) (c : RuleCandidate) {v : FieldValue}
      → work_value field c ≡ some v
      → (type_of v ≡ value_type field) × (scope field ≡ FieldScope.work)
  unfolding work_value value_type type_of scope
  work_value-typed RuleField.tags c h = ground arith
  work_value-typed _ c h = ground arith

  -- A value read from a work and one of its pages has the type that its field declares.
  pub page_value-typed :
      (field : RuleField) (c : RuleCandidate) (page : PageRuleMetadata) {v : FieldValue}
      → page_value field c page ≡ some v
      → type_of v ≡ value_type field
  unfolding page_value value_type type_of
  page_value-typed page_original_extension c page h = ground arith
  page_value-typed page_width c page h = ground arith
  page_value-typed page_height c page h = ground arith
  page_value-typed page_aspect_ratio c page h = ground arith
  page_value-typed page_orientation c page h = ground arith
  page_value-typed field c page h = (work_value-typed field c h).0
