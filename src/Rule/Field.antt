-- ===== src/Rule/Field.antt =====
-- The fields that a condition can test (rule/field.rs).
use pixiv_archive.Prelude.{List, [], ◌∷◌, Bool, true, false}

pub data FieldScope : Type 0 where
  work page : FieldScope

pub data FieldType : Type 0 where
  number text category tags date boolean : FieldType

pub data RuleField : Type 0 where
  pixiv_work_id content_type title description artist_id artist_name published_at updated_at tags
        page_count age_rating ai_generated original_work bookmarked_by_current_account
        bookmark_count view_count like_count comment_count bookmark_rate bookmarks_per_day
        ranking_rank ranking_date series_id series_title series_order page_original_extension
        page_width page_height page_aspect_ratio page_orientation :
      RuleField

-- `RuleField::ALL`.
abbrev pub all_fields : List RuleField
all_fields =
    pixiv_work_id ∷ content_type ∷ title ∷ description ∷ artist_id ∷ artist_name ∷ published_at
    ∷ updated_at ∷ RuleField.tags ∷ page_count ∷ age_rating ∷ ai_generated ∷ original_work
    ∷ bookmarked_by_current_account ∷ bookmark_count ∷ view_count ∷ like_count ∷ comment_count
    ∷ bookmark_rate ∷ bookmarks_per_day ∷ ranking_rank ∷ ranking_date ∷ series_id ∷ series_title
    ∷ series_order ∷ page_original_extension ∷ page_width ∷ page_height ∷ page_aspect_ratio
    ∷ page_orientation ∷ []

unfoldable pub scope : RuleField → FieldScope
scope page_original_extension = page
scope page_width = page
scope page_height = page
scope page_aspect_ratio = page
scope page_orientation = page
scope _ = work

unfoldable pub value_type : RuleField → FieldType
value_type title = text
value_type description = text
value_type artist_name = text
value_type series_title = text
value_type content_type = category
value_type age_rating = category
value_type page_original_extension = category
value_type page_orientation = category
value_type RuleField.tags = FieldType.tags
value_type published_at = date
value_type updated_at = date
value_type ranking_date = date
value_type ai_generated = boolean
value_type original_work = boolean
value_type bookmarked_by_current_account = boolean
value_type pixiv_work_id = number
value_type artist_id = number
value_type page_count = number
value_type bookmark_count = number
value_type view_count = number
value_type like_count = number
value_type comment_count = number
value_type bookmark_rate = number
value_type bookmarks_per_day = number
value_type ranking_rank = number
value_type series_id = number
value_type series_order = number
value_type page_width = number
value_type page_height = number
value_type page_aspect_ratio = number

-- Tests on the enumerations.
abbrev pub is_page : FieldScope → Bool
is_page page = true
is_page work = false

abbrev pub is_work : FieldScope → Bool
is_work work = true
is_work page = false

abbrev pub is_tags : RuleField → Bool
is_tags RuleField.tags = true
is_tags _ = false

-- `matches!(field_type, FieldType::Text | FieldType::Tags)`.
abbrev pub is_text_or_tags : FieldType → Bool
is_text_or_tags text = true
is_text_or_tags FieldType.tags = true
is_text_or_tags _ = false
