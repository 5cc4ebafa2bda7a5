-- ===== src/Logging.antt =====
-- core/logging/logging.go and core/env/env.go.
use muto.Prelude.Text.{lowered}
use muto.Prelude.{
  ℕ, String, ◌==◌, Bool, true, false, List, [], ◌∷◌, Result, ok, err, eqb, ◌&&◌, if◌then◌else◌,
}

-- os.Getenv is the argument `getenv`.
unfoldable pub or_default : (String → String) → String → String → String
or_default getenv key fallback = let v = getenv key in if v == "" then fallback else v

pub data Level : Type 0 where
  debug info warn error : Level

pub data Encoder : Type 0 where
  json console : Encoder

pub data Error : Type 0 where
  invalid_level invalid_format : String → Error

pub record Logger : Type 0 where
  pub level : Level
  pub encoder : Encoder

abbrev same_codes : List ℕ → List ℕ → Bool
same_codes [] [] = true
same_codes [] (d ∷ ds) = false
same_codes (c ∷ cs) [] = false
same_codes (c ∷ cs) (d ∷ ds) = eqb c d && same_codes cs ds

-- `strings.ToLower(s) == word`, for a word in lower case.
abbrev pub reads_as : String → String → Bool
reads_as s word = same_codes (lowered s) (lowered word)

unfoldable pub level_of : String → Result Error Level
level_of level =
    if reads_as level "debug"
    then ok debug
    else if reads_as level "info"
    then ok info
    else if reads_as level "warn"
    then ok warn
    else if reads_as level "error"
    then ok error
    else err (invalid_level level)

unfoldable pub encoder_of : String → Result Error Encoder
encoder_of format =
    if reads_as format "json"
    then ok json
    else if reads_as format "console"
    then ok console
    else err (invalid_format format)

with_encoder : Level → Result Error Encoder → Result Error Logger
with_encoder level (err e) = err e
with_encoder level (ok encoder) = ok (record { level = level; encoder = encoder })

with_level : String → Result Error Level → Result Error Logger
unfolding with_encoder
with_level format (err e) = err e
with_level format (ok level) = with_encoder level (encoder_of format)

unfoldable pub build_logger : String → String → Result Error Logger
unfolding with_level
build_logger format level = with_level format (level_of level)
