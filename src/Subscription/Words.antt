-- ===== src/Subscription/Words.antt =====
-- The stored words of subscriptions and imports (crates/domain/src/subscription.rs), read back.
use pixiv_archive.Prelude.{◌≡◌, refl, some, match_text, IsDecodedBy, match_text-IsDecodedBy}
use pixiv_archive.Subscription.Kind
use pixiv_archive.Subscription.Kind.{SubscriptionKind}
use pixiv_archive.Subscription.Account
use pixiv_archive.Subscription.Account.{PixivAccountState}
use pixiv_archive.Subscription.RunStatus
use pixiv_archive.Subscription.RunStatus.{SubscriptionRunStatus}
use pixiv_archive.Subscription.RecentState
use pixiv_archive.Subscription.RecentState.{SubscriptionRecentState}
use pixiv_archive.Subscription.ImportKind
use pixiv_archive.Subscription.ImportKind.{ImportKind}
use pixiv_archive.Subscription.ImportStatus
use pixiv_archive.Subscription.ImportStatus.{ImportRunStatus}

kind_found : (a : SubscriptionKind) → match_text Kind.words (Kind.as_str a) ≡ some a
unfolding Kind.as_str match_text
kind_found Kind.ranking = refl
kind_found Kind.following = refl
kind_found Kind.bookmarks = refl

kind_words : IsDecodedBy Kind.as_str Kind.from_db_value
unfolding Kind.as_str Kind.from_db_value
kind_words = match_text-IsDecodedBy Kind.as_str Kind.words (refl, (refl, (refl, tt))) kind_found

account_found : (a : PixivAccountState) → match_text Account.words (Account.as_str a) ≡ some a
unfolding Account.as_str match_text
account_found Account.unconfigured = refl
account_found Account.validating = refl
account_found Account.normal = refl
account_found Account.restricted = refl
account_found Account.credential_invalid = refl

account_words : IsDecodedBy Account.as_str Account.from_db_value
unfolding Account.as_str Account.from_db_value
account_words =
    match_text-IsDecodedBy Account.as_str Account.words (refl, (refl, (refl, (refl, (refl, tt)))))
      account_found

run_found : (a : SubscriptionRunStatus) → match_text RunStatus.words (RunStatus.as_str a) ≡ some a
unfolding RunStatus.as_str match_text
run_found RunStatus.queued = refl
run_found RunStatus.running = refl
run_found RunStatus.succeeded = refl
run_found RunStatus.failed = refl
run_found RunStatus.cancelled = refl

run_words : IsDecodedBy RunStatus.as_str RunStatus.from_db_value
unfolding RunStatus.as_str RunStatus.from_db_value
run_words =
    match_text-IsDecodedBy RunStatus.as_str RunStatus.words
      (refl, (refl, (refl, (refl, (refl, tt))))) run_found

recent_found :
    (a : SubscriptionRecentState) → match_text RecentState.words (RecentState.as_str a) ≡ some a
unfolding RecentState.as_str match_text
recent_found RecentState.never_run = refl
recent_found RecentState.running = refl
recent_found RecentState.succeeded = refl
recent_found RecentState.failed = refl
recent_found RecentState.paused = refl

recent_words : IsDecodedBy RecentState.as_str RecentState.from_db_value
unfolding RecentState.as_str RecentState.from_db_value
recent_words =
    match_text-IsDecodedBy RecentState.as_str RecentState.words
      (refl, (refl, (refl, (refl, (refl, tt))))) recent_found

import_kind_found : (a : ImportKind) → match_text ImportKind.words (ImportKind.as_str a) ≡ some a
unfolding ImportKind.as_str match_text
import_kind_found ImportKind.artist = refl
import_kind_found ImportKind.work = refl

import_kind_words : IsDecodedBy ImportKind.as_str ImportKind.from_db_value
unfolding ImportKind.as_str ImportKind.from_db_value
import_kind_words =
    match_text-IsDecodedBy ImportKind.as_str ImportKind.words (refl, (refl, tt)) import_kind_found

import_found :
    (a : ImportRunStatus) → match_text ImportStatus.words (ImportStatus.as_str a) ≡ some a
unfolding ImportStatus.as_str match_text
import_found ImportStatus.queued = refl
import_found ImportStatus.running = refl
import_found ImportStatus.metadata_saved = refl
import_found ImportStatus.download_queued = refl
import_found ImportStatus.ignored = refl
import_found ImportStatus.blocked_by_deletion_marker = refl
import_found ImportStatus.failed = refl
import_found ImportStatus.cancelled = refl

import_words : IsDecodedBy ImportStatus.as_str ImportStatus.from_db_value
unfolding ImportStatus.as_str ImportStatus.from_db_value
import_words =
    match_text-IsDecodedBy ImportStatus.as_str ImportStatus.words
      (refl, (refl, (refl, (refl, (refl, (refl, (refl, (refl, tt)))))))) import_found

-- For subscription kinds, account states, run states, recent states, import kinds and import states,
-- the stored word of a value is the only word that is decoded to it.
pub subscription_words :
    IsDecodedBy Kind.as_str Kind.from_db_value
    × IsDecodedBy Account.as_str Account.from_db_value
    × IsDecodedBy RunStatus.as_str RunStatus.from_db_value
    × IsDecodedBy RecentState.as_str RecentState.from_db_value
    × IsDecodedBy ImportKind.as_str ImportKind.from_db_value
    × IsDecodedBy ImportStatus.as_str ImportStatus.from_db_value
subscription_words =
    (kind_words, account_words, run_words, recent_words, import_kind_words, import_words)
