-- ===== src/Subscription/ImportKind.antt =====
-- What an import brings in (crates/domain/src/subscription.rs).
use pixiv_archive.Prelude.{List, [], ◌∷◌, Option, String, match_text}

pub data ImportKind : Type 0 where
  artist work : ImportKind

unfoldable pub as_str : ImportKind → String
as_str artist = "artist"
as_str work = "work"

-- The arms of the match on a stored word.
abbrev pub words : List (String × ImportKind)
words = ("artist", artist) ∷ ("work", work) ∷ []

unfoldable pub from_db_value : String → Option ImportKind
from_db_value = match_text words
