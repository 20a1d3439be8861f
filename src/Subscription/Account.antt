-- ===== src/Subscription/Account.antt =====
-- The states of a Pixiv account (crates/domain/src/subscription.rs).
use pixiv_archive.Prelude.{List, [], ◌∷◌, Option, String, match_text, Bool, true, false}

pub data PixivAccountState : Type 0 where
  unconfigured validating normal restricted credential_invalid : PixivAccountState

unfoldable pub as_str : PixivAccountState → String
as_str unconfigured = "unconfigured"
as_str validating = "validating"
as_str normal = "normal"
as_str restricted = "restricted"
as_str credential_invalid = "credential_invalid"

-- The arms of the match on a stored word.
abbrev pub words : List (String × PixivAccountState)
words =
    ("unconfigured", unconfigured)
    ∷ ("validating", validating)
    ∷ ("normal", normal)
    ∷ ("restricted", restricted)
    ∷ ("credential_invalid", credential_invalid)
    ∷ []

unfoldable pub from_db_value : String → Option PixivAccountState
from_db_value = match_text words

unfoldable pub blocks_subscription_runs : PixivAccountState → Bool
blocks_subscription_runs unconfigured = true
blocks_subscription_runs validating = true
blocks_subscription_runs credential_invalid = true
blocks_subscription_runs _ = false
