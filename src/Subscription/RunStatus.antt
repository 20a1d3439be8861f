-- ===== src/Subscription/RunStatus.antt =====
-- The states of one run of a subscription (crates/domain/src/subscription.rs).
use pixiv_archive.Subscription.RecentState.{SubscriptionRecentState}
use pixiv_archive.Prelude.{List, [], ◌∷◌, Option, String, match_text, none, some}

pub data SubscriptionRunStatus : Type 0 where
  queued running succeeded failed cancelled : SubscriptionRunStatus

unfoldable pub as_str : SubscriptionRunStatus → String
as_str queued = "queued"
as_str running = "running"
as_str succeeded = "succeeded"
as_str failed = "failed"
as_str cancelled = "cancelled"

-- The arms of the match on a stored word.
abbrev pub words : List (String × SubscriptionRunStatus)
words =
    ("queued", queued)
    ∷ ("running", running)
    ∷ ("succeeded", succeeded)
    ∷ ("failed", failed)
    ∷ ("cancelled", cancelled)
    ∷ []

unfoldable pub from_db_value : String → Option SubscriptionRunStatus
from_db_value = match_text words

unfoldable pub recent_state : SubscriptionRunStatus → Option SubscriptionRecentState
recent_state queued = none
recent_state running = none
recent_state succeeded = some SubscriptionRecentState.succeeded
recent_state failed = some SubscriptionRecentState.failed
recent_state cancelled = some SubscriptionRecentState.paused
