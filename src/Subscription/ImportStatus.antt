-- ===== src/Subscription/ImportStatus.antt =====
-- The states of one run of an import (crates/domain/src/subscription.rs).
use pixiv_archive.Prelude.{List, [], ◌∷◌, Option, String, match_text, Bool, true, false}

pub data ImportRunStatus : Type 0 where
  queued running metadata_saved download_queued ignored blocked_by_deletion_marker failed
        cancelled :
      ImportRunStatus

unfoldable pub as_str : ImportRunStatus → String
as_str queued = "queued"
as_str running = "running"
as_str metadata_saved = "metadata_saved"
as_str download_queued = "download_queued"
as_str ignored = "ignored"
as_str blocked_by_deletion_marker = "blocked_by_deletion_marker"
as_str failed = "failed"
as_str cancelled = "cancelled"

-- The arms of the match on a stored word.
abbrev pub words : List (String × ImportRunStatus)
words =
    ("queued", queued)
    ∷ ("running", running)
    ∷ ("metadata_saved", metadata_saved)
    ∷ ("download_queued", download_queued)
    ∷ ("ignored", ignored)
    ∷ ("blocked_by_deletion_marker", blocked_by_deletion_marker)
    ∷ ("failed", failed)
    ∷ ("cancelled", cancelled)
    ∷ []

unfoldable pub from_db_value : String → Option ImportRunStatus
from_db_value = match_text words

unfoldable pub is_successful_terminal : ImportRunStatus → Bool
is_successful_terminal metadata_saved = true
is_successful_terminal download_queued = true
is_successful_terminal ignored = true
is_successful_terminal blocked_by_deletion_marker = true
is_successful_terminal _ = false
