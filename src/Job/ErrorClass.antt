-- ===== src/Job/ErrorClass.antt =====
-- The classes of errors that end an attempt at a job (crates/domain/src/job.rs).
use pixiv_archive.Prelude.{List, [], ◌∷◌, Option, String, match_text}

pub data JobErrorClass : Type 0 where
  network server rate_limit credential_invalid permanent : JobErrorClass

unfoldable pub as_str : JobErrorClass → String
as_str network = "network"
as_str server = "server"
as_str rate_limit = "rate_limit"
as_str credential_invalid = "credential_invalid"
as_str permanent = "permanent"

-- The arms of the match on a stored word.
abbrev pub words : List (String × JobErrorClass)
words =
    ("network", network)
    ∷ ("server", server)
    ∷ ("rate_limit", rate_limit)
    ∷ ("credential_invalid", credential_invalid)
    ∷ ("permanent", permanent)
    ∷ []

unfoldable pub from_db_value : String → Option JobErrorClass
from_db_value = match_text words
