-- ===== src/Subscription/Kind.antt =====
-- The kinds of subscriptions (crates/domain/src/subscription.rs).
use pixiv_archive.Prelude.{List, [], ◌∷◌, Option, String, match_text}

pub data SubscriptionKind : Type 0 where
  ranking following bookmarks : SubscriptionKind

unfoldable pub as_str : SubscriptionKind → String
as_str ranking = "ranking"
as_str following = "following"
as_str bookmarks = "bookmarks"

-- The arms of the match on a stored word.
abbrev pub words : List (String × SubscriptionKind)
words = ("ranking", ranking) ∷ ("following", following) ∷ ("bookmarks", bookmarks) ∷ []

unfoldable pub from_db_value : String → Option SubscriptionKind
from_db_value = match_text words
