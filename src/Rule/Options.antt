-- ===== src/Rule/Options.antt =====
-- The values that a finite field offers (rule/options.rs).
use pixiv_archive.Prelude.{List, [], ◌∷◌, String}
use pixiv_archive.Rule.Field.{
  RuleField, content_type, age_rating, page_original_extension, page_orientation,
}

pub record RuleValueOption : Type 0 where
  pub value : String
  pub label : String

abbrev option : String → String → RuleValueOption
option value label = record { value = value; label = label }

abbrev pub content_types : List RuleValueOption
content_types = option "illustration" "插画" ∷ option "manga" "漫画" ∷ option "ugoira" "动图" ∷ []

abbrev pub age_ratings : List RuleValueOption
age_ratings = option "all_age" "全年龄" ∷ option "r18" "R-18" ∷ option "r18g" "R-18G" ∷ []

abbrev pub original_extensions : List RuleValueOption
original_extensions = option "jpg" "JPEG" ∷ option "png" "PNG" ∷ option "gif" "GIF" ∷ []

abbrev pub page_orientations : List RuleValueOption
page_orientations = option "portrait" "竖图" ∷ option "landscape" "横图" ∷ option "square" "方图" ∷ []

unfoldable pub value_options : RuleField → List RuleValueOption
value_options content_type = content_types
value_options age_rating = age_ratings
value_options page_original_extension = original_extensions
value_options page_orientation = page_orientations
value_options _ = []
