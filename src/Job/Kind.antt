-- ===== src/Job/Kind.antt =====
-- The kinds of jobs (crates/domain/src/job.rs).
use pixiv_archive.Prelude.{
  ℕ, List, [], ◌∷◌, Option, none, some, String, match_text, Outcome, ok, err,
}
use pixiv_archive.Subscription.Kind.{SubscriptionKind, ranking, following, bookmarks}

pub data JobKind : Type 0 where
  scheduled_collection ranking_collection following_collection bookmarks_collection import_artist
        import_work download_media generate_derivative purge_trash :
      JobKind

unfoldable pub JobKind-discrete : Discrete JobKind
JobKind-discrete = hlevel

-- `JobKind::ALL`.
abbrev pub all_kinds : List JobKind
all_kinds =
    scheduled_collection ∷ ranking_collection ∷ following_collection ∷ bookmarks_collection
    ∷ import_artist ∷ import_work ∷ download_media ∷ generate_derivative ∷ purge_trash ∷ []

unfoldable pub as_str : JobKind → String
as_str scheduled_collection = "scheduled_collection"
as_str ranking_collection = "ranking_collection"
as_str following_collection = "following_collection"
as_str bookmarks_collection = "bookmarks_collection"
as_str import_artist = "import_artist"
as_str import_work = "import_work"
as_str download_media = "download_media"
as_str generate_derivative = "generate_derivative"
as_str purge_trash = "purge_trash"

pub record JobKindParseError : Type 0 where
  pub value : String

-- The arms of the match on a stored word.
abbrev pub words : List (String × JobKind)
words =
    ("scheduled_collection", scheduled_collection)
    ∷ ("ranking_collection", ranking_collection)
    ∷ ("following_collection", following_collection)
    ∷ ("bookmarks_collection", bookmarks_collection)
    ∷ ("import_artist", import_artist)
    ∷ ("import_work", import_work)
    ∷ ("download_media", download_media)
    ∷ ("generate_derivative", generate_derivative)
    ∷ ("purge_trash", purge_trash)
    ∷ []

unfoldable pub known_kind : String → Option JobKind
known_kind = match_text words

unfoldable pub from_str : String → Outcome JobKindParseError JobKind
from_str s = elim (known_kind s) [ some kind ↦ ok kind | none ↦ err (record { value = s }) ]

unfoldable pub for_subscription : SubscriptionKind → JobKind
for_subscription ranking = ranking_collection
for_subscription following = following_collection
for_subscription bookmarks = bookmarks_collection

unfoldable pub index : JobKind → ℕ
index scheduled_collection = 0
index ranking_collection = 1
index following_collection = 2
index bookmarks_collection = 3
index import_artist = 4
index import_work = 5
index download_media = 6
index generate_derivative = 7
index purge_trash = 8
