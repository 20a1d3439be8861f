-- ===== src/Rule/Candidate.antt =====
-- A discovered work and the values of its fields (rule/evaluator.rs).
pub mod Types
use mathlib.Core.Option
use pixiv_archive.Prelude.{ℕ, List, Bool, Option, some, none, String, map}
use pixiv_archive.Prelude.Int.{ℤ}
use pixiv_archive.Rule.Platform.{Platform}
use pixiv_archive.Rule.Field.{
  RuleField, pixiv_work_id, content_type, title, description, artist_id, artist_name, published_at,
  updated_at, page_count, age_rating, ai_generated, original_work, bookmarked_by_current_account,
  bookmark_count, view_count, like_count, comment_count, bookmark_rate, bookmarks_per_day,
  ranking_rank, ranking_date, series_id, series_title, series_order, page_original_extension,
  page_width, page_height, page_aspect_ratio, page_orientation,
}
use pixiv_archive.Rule.Value.{TagValue, FieldValue}

pub record RuleTag : Type 0 where
  pub original : String
  pub translation : Option String

module _ ⦃P : Platform⦄ where
  open P use {Number, Instant, of_i64, of_unsigned}

  pub record PageRuleMetadata : Type 0 where
    pub original_extension : Option String
    pub width : Option ℕ
    pub height : Option ℕ
    pub aspect_ratio : Option Number
    pub orientation : Option String

  pub record CandidatePage : Type 0 where
    pub metadata : Option PageRuleMetadata

  pub record RuleCandidate : Type 0 where
    pub pixiv_work_id : ℤ
    pub content_type : String
    pub title : Option String
    pub description : Option String
    pub artist_id : Option ℤ
    pub artist_name : Option String
    pub published_at : Option Instant
    pub updated_at : Option Instant
    pub tags : List RuleTag
    pub page_count : ℕ
    pub age_rating : Option String
    pub ai_generated : Option Bool
    pub original_work : Option Bool
    pub bookmarked_by_current_account : Option Bool
    pub bookmark_count : Option ℕ
    pub view_count : Option ℕ
    pub like_count : Option ℕ
    pub comment_count : Option ℕ
    pub bookmark_rate : Option Number
    pub bookmarks_per_day : Option Number
    pub ranking_rank : Option ℕ
    pub ranking_date : Option Instant
    pub series_id : Option ℤ
    pub series_title : Option String
    pub series_order : Option ℕ
    pub pages : List CandidatePage

  pub record EvaluationContext : Type 0 where
    pub now : Instant
    pub candidate : RuleCandidate

  -- The casts of the closures `|value| FieldValue::Number(value as f64)`.
  abbrev unsigned_number : ℕ → FieldValue
  unsigned_number value = FieldValue.number (of_unsigned value)

  abbrev i64_number : ℤ → FieldValue
  i64_number value = FieldValue.number (of_i64 value)

  abbrev tag_value : RuleTag → TagValue
  tag_value tag = record { original = tag.original; translation = tag.translation }

  unfoldable pub work_value : RuleField → RuleCandidate → Option FieldValue
  work_value pixiv_work_id c = some (i64_number c.pixiv_work_id)
  work_value content_type c = some (FieldValue.category c.content_type)
  work_value title c = Option.map FieldValue.text c.title
  work_value description c = Option.map FieldValue.text c.description
  work_value artist_id c = Option.map i64_number c.artist_id
  work_value artist_name c = Option.map FieldValue.text c.artist_name
  work_value published_at c = Option.map FieldValue.date c.published_at
  work_value updated_at c = Option.map FieldValue.date c.updated_at
  work_value RuleField.tags c = some (FieldValue.tags (map tag_value c.tags))
  work_value page_count c = some (unsigned_number c.page_count)
  work_value age_rating c = Option.map FieldValue.category c.age_rating
  work_value ai_generated c = Option.map FieldValue.boolean c.ai_generated
  work_value original_work c = Option.map FieldValue.boolean c.original_work
  work_value bookmarked_by_current_account c =
      Option.map FieldValue.boolean c.bookmarked_by_current_account
  work_value bookmark_count c = Option.map unsigned_number c.bookmark_count
  work_value view_count c = Option.map unsigned_number c.view_count
  work_value like_count c = Option.map unsigned_number c.like_count
  work_value comment_count c = Option.map unsigned_number c.comment_count
  work_value bookmark_rate c = Option.map FieldValue.number c.bookmark_rate
  work_value bookmarks_per_day c = Option.map FieldValue.number c.bookmarks_per_day
  work_value ranking_rank c = Option.map unsigned_number c.ranking_rank
  work_value ranking_date c = Option.map FieldValue.date c.ranking_date
  work_value series_id c = Option.map i64_number c.series_id
  work_value series_title c = Option.map FieldValue.text c.series_title
  work_value series_order c = Option.map unsigned_number c.series_order
  work_value _ c = none

  unfoldable pub page_value : RuleField → RuleCandidate → PageRuleMetadata → Option FieldValue
  unfolding work_value
  page_value page_original_extension c page = Option.map FieldValue.category page.original_extension
  page_value page_width c page = Option.map unsigned_number page.width
  page_value page_height c page = Option.map unsigned_number page.height
  page_value page_aspect_ratio c page = Option.map FieldValue.number page.aspect_ratio
  page_value page_orientation c page = Option.map FieldValue.category page.orientation
  page_value field c page = work_value field c
