-- ===== src/Job/Collection.antt =====
-- The states of a work in the archive (crates/domain/src/job.rs).
use pixiv_archive.Prelude.{List, [], ◌∷◌, Option, String, match_text}

pub data CollectionState : Type 0 where
  collected metadata_only trash : CollectionState

unfoldable pub as_str : CollectionState → String
as_str collected = "collected"
as_str metadata_only = "metadata_only"
as_str trash = "trash"

-- The arms of the match on a stored word.
abbrev pub words : List (String × CollectionState)
words = ("collected", collected) ∷ ("metadata_only", metadata_only) ∷ ("trash", trash) ∷ []

unfoldable pub from_db_value : String → Option CollectionState
from_db_value = match_text words
