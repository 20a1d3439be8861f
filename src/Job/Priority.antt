-- ===== src/Job/Priority.antt =====
-- The priorities of jobs (crates/domain/src/job.rs).
use pixiv_archive.Prelude.{List, [], ◌∷◌, Option, String, match_text}

pub data JobPriority : Type 0 where
  immediate manual_import scheduled_collection background_maintenance : JobPriority

pub JobPriority-discrete : Discrete JobPriority
JobPriority-discrete = hlevel

unfoldable pub as_str : JobPriority → String
as_str immediate = "immediate"
as_str manual_import = "manual_import"
as_str scheduled_collection = "scheduled_collection"
as_str background_maintenance = "background_maintenance"

-- The arms of the match on a stored word.
abbrev pub words : List (String × JobPriority)
words =
    ("immediate", immediate)
    ∷ ("manual_import", manual_import)
    ∷ ("scheduled_collection", scheduled_collection)
    ∷ ("background_maintenance", background_maintenance)
    ∷ []

unfoldable pub from_db_value : String → Option JobPriority
from_db_value = match_text words
