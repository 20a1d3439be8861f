-- ===== src/Job/State.antt =====
-- The states of jobs (crates/domain/src/job.rs).
use pixiv_archive.Prelude.{List, [], ◌∷◌, Option, String, match_text}

pub data JobState : Type 0 where
  queued running waiting_account waiting_storage completed failed cancelled : JobState

unfoldable pub as_str : JobState → String
as_str queued = "queued"
as_str running = "running"
as_str waiting_account = "waiting_account"
as_str waiting_storage = "waiting_storage"
as_str completed = "completed"
as_str failed = "failed"
as_str cancelled = "cancelled"

-- The arms of the match on a stored word.
abbrev pub words : List (String × JobState)
words =
    ("queued", queued)
    ∷ ("running", running)
    ∷ ("waiting_account", waiting_account)
    ∷ ("waiting_storage", waiting_storage)
    ∷ ("completed", completed)
    ∷ ("failed", failed)
    ∷ ("cancelled", cancelled)
    ∷ []

unfoldable pub from_db_value : String → Option JobState
from_db_value = match_text words
