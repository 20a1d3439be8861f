-- ===== src/Subscription/RecentState.antt =====
-- How a subscription has fared lately (crates/domain/src/subscription.rs).
use pixiv_archive.Prelude.{List, [], ◌∷◌, Option, String, match_text}

pub data SubscriptionRecentState : Type 0 where
  never_run running succeeded failed paused : SubscriptionRecentState

unfoldable pub as_str : SubscriptionRecentState → String
as_str never_run = "never_run"
as_str running = "running"
as_str succeeded = "succeeded"
as_str failed = "failed"
as_str paused = "paused"

-- The arms of the match on a stored word.
abbrev pub words : List (String × SubscriptionRecentState)
words =
    ("never_run", never_run)
    ∷ ("running", running)
    ∷ ("succeeded", succeeded)
    ∷ ("failed", failed)
    ∷ ("paused", paused)
    ∷ []

unfoldable pub from_db_value : String → Option SubscriptionRecentState
from_db_value = match_text words
