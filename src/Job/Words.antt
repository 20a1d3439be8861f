-- ===== src/Job/Words.antt =====
-- The stored words of jobs (crates/domain/src/job.rs), read back.
use pixiv_archive.Prelude.{
  ◌≡◌, refl, sym, ap, ◌↔◌, Option-cases, inl, inr, some, String, ok, err, match_text, IsDecodedBy,
  match_text-IsDecodedBy, arith,
}
use pixiv_archive.Job.Priority
use pixiv_archive.Job.Priority.{JobPriority}
use pixiv_archive.Job.State
use pixiv_archive.Job.State.{JobState}
use pixiv_archive.Job.ErrorClass
use pixiv_archive.Job.ErrorClass.{JobErrorClass}
use pixiv_archive.Job.Collection
use pixiv_archive.Job.Collection.{CollectionState}
use pixiv_archive.Job.Kind
use pixiv_archive.Job.Kind.{JobKind}
use pixiv_archive.Job.Kind.{JobKindParseError, known_kind, from_str}

priority_found : (a : JobPriority) → match_text Priority.words (Priority.as_str a) ≡ some a
unfolding Priority.as_str match_text
priority_found Priority.immediate = refl
priority_found Priority.manual_import = refl
priority_found Priority.scheduled_collection = refl
priority_found Priority.background_maintenance = refl

priority_words : IsDecodedBy Priority.as_str Priority.from_db_value
unfolding Priority.as_str Priority.from_db_value
priority_words =
    match_text-IsDecodedBy Priority.as_str Priority.words (refl, (refl, (refl, (refl, tt))))
      priority_found

state_found : (a : JobState) → match_text State.words (State.as_str a) ≡ some a
unfolding State.as_str match_text
state_found State.queued = refl
state_found State.running = refl
state_found State.waiting_account = refl
state_found State.waiting_storage = refl
state_found State.completed = refl
state_found State.failed = refl
state_found State.cancelled = refl

state_words : IsDecodedBy State.as_str State.from_db_value
unfolding State.as_str State.from_db_value
state_words =
    match_text-IsDecodedBy State.as_str State.words
      (refl, (refl, (refl, (refl, (refl, (refl, (refl, tt))))))) state_found

error_found : (a : JobErrorClass) → match_text ErrorClass.words (ErrorClass.as_str a) ≡ some a
unfolding ErrorClass.as_str match_text
error_found ErrorClass.network = refl
error_found ErrorClass.server = refl
error_found ErrorClass.rate_limit = refl
error_found ErrorClass.credential_invalid = refl
error_found ErrorClass.permanent = refl

error_words : IsDecodedBy ErrorClass.as_str ErrorClass.from_db_value
unfolding ErrorClass.as_str ErrorClass.from_db_value
error_words =
    match_text-IsDecodedBy ErrorClass.as_str ErrorClass.words
      (refl, (refl, (refl, (refl, (refl, tt))))) error_found

collection_found :
    (a : CollectionState) → match_text Collection.words (Collection.as_str a) ≡ some a
unfolding Collection.as_str match_text
collection_found Collection.collected = refl
collection_found Collection.metadata_only = refl
collection_found Collection.trash = refl

collection_words : IsDecodedBy Collection.as_str Collection.from_db_value
unfolding Collection.as_str Collection.from_db_value
collection_words =
    match_text-IsDecodedBy Collection.as_str Collection.words (refl, (refl, (refl, tt)))
      collection_found

kind_found : (a : JobKind) → match_text Kind.words (Kind.as_str a) ≡ some a
unfolding Kind.as_str match_text
kind_found Kind.scheduled_collection = refl
kind_found Kind.ranking_collection = refl
kind_found Kind.following_collection = refl
kind_found Kind.bookmarks_collection = refl
kind_found Kind.import_artist = refl
kind_found Kind.import_work = refl
kind_found Kind.download_media = refl
kind_found Kind.generate_derivative = refl
kind_found Kind.purge_trash = refl

kind_words : IsDecodedBy Kind.as_str Kind.known_kind
unfolding Kind.as_str Kind.known_kind
kind_words =
    match_text-IsDecodedBy Kind.as_str Kind.words
      (refl, (refl, (refl, (refl, (refl, (refl, (refl, (refl, (refl, tt))))))))) kind_found

-- For priorities, job states, error classes and collection states, the stored word of a value is the
-- only word that is decoded to it.
pub job_words :
    IsDecodedBy Priority.as_str Priority.from_db_value
    × IsDecodedBy State.as_str State.from_db_value
    × IsDecodedBy ErrorClass.as_str ErrorClass.from_db_value
    × IsDecodedBy Collection.as_str Collection.from_db_value
job_words = (priority_words, state_words, error_words, collection_words)

-- The word of a job kind is the only one that is parsed to the kind, and the error of any other
-- word carries the word: a word is the word of a kind, or it is rejected with itself.
pub from_str_iff :
    (s : String)
    → ((kind : JobKind) → (from_str s ≡ ok kind) ↔ (s ≡ Kind.as_str kind))
      × ((e : JobKindParseError)
          → (from_str s ≡ err e) ↔ ((e.value ≡ s) × ((kind : JobKind) → ¬ (s ≡ Kind.as_str kind))))
unfolding from_str
from_str_iff s = elim (Option-cases (known_kind s)) [
  | inl unknown ↦ (
    λ kind. (λ h. ground arith, λ e. cc (unknown, (kind_words s kind).1 e)),
    λ e. (
      λ h. (ground arith, λ kind same. cc (unknown, (kind_words s kind).1 same)),
      λ h. rw (unknown, from_str) (ap (λ v. err (record { value = v })) (sym h.0)),
    ),
  )
  | inr (kind, known) ↦ (
    λ kind'.
        (λ h. (kind_words s kind').0 (ground arith), λ e. rw ((kind_words s kind').1 e, from_str)),
    λ e. (λ h. ground arith, λ h. absurd (h.1 kind ((kind_words s kind).0 known))),
  )
]
