-- ===== src/RuleEngine/Errors.antt =====
-- `_parse_nft_errors` of nse/core/rule_engine.py.
pub mod RoundTrip
pub mod Grouped
use network_sandbox_engine.Prelude.{
  ℕ, Text, codes, run_of, after, drop_space, strip, split_lines, digits_value, is_digit, is_word,
  not, ◌||◌, ◌==◌, Bool, Option, none, some, List, [], ◌∷◌, ◌++◌, if◌then◌else◌, ◌>>=◌,
}

-- `NftError`, as the fields of a dictionary
pub record Location : Type 0 where
  pub line : ℕ
  pub column_range : Text
  pub level : Text
  pub message : Text

-- One dictionary of the list: with a location, or with the raw line alone; and the lines that were
-- appended under "context".
pub record NftError : Type 0 where
  pub found : Option Location
  pub raw : Text
  pub context : List Text

-- a message is at least one character
abbrev message_of : Text → Option Text
message_of [] = none
message_of (c ∷ t) = some (c ∷ t)

abbrev pub is_column : ℕ → Bool
is_column c = is_digit c || c == b'-'

-- `(p+):`, and the rest of a pattern, where a colon is outside the class.
unfoldable pub field : (ℕ → Bool) → (Text → Text → Option Location) → Text → Option Location
field p rest t = do (word, t) ← run_of p t; t ← after (codes ":") t; rest word t

abbrev pub read_message : Text → Text → Text → Text → Option Location
read_message line column_range level t = do
  message ← message_of (drop_space t)
  some (record {
    line = digits_value 0 line;
    column_range = column_range;
    level = level;
    message = message;
  })

-- `_NFT_ERROR_RE`, on a line without white space at its end
unfoldable pub nft_error_re : Text → Option Location
nft_error_re =
    field (λ c. not (c == b':'))
      (λ _. field is_digit (λ line.
        field is_column
          (λ column_range t. field is_word (read_message line column_range) (drop_space t))))

-- `errors[-1].setdefault("context", []).append(raw_line)`, or the first raw line
unfoldable pub add_context : Text → List NftError → List NftError
add_context t [] = record { found = none; raw = t; context = [] } ∷ []
add_context t (e ∷ []) = record e { context = e.context ++ t ∷ [] } ∷ []
add_context t (e ∷ e' ∷ es) = e ∷ add_context t (e' ∷ es)

unfoldable pub add_line : Text → List NftError → List NftError
add_line [] errors = errors
add_line (c ∷ t) errors = elim (nft_error_re (c ∷ t)) [
  | some found ↦ errors ++ record { found = some found; raw = []; context = [] } ∷ []
  | none ↦ add_context (c ∷ t) errors
]

unfoldable pub parse_from : List Text → List NftError → List NftError
parse_from [] errors = errors
parse_from (raw_line ∷ lines) errors = parse_from lines (add_line (strip raw_line) errors)

unfoldable pub parse_nft_errors : Text → List NftError
parse_nft_errors stderr = parse_from (split_lines stderr) []
