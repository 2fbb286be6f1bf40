-- ===== src/Documents.antt =====
-- runner/src/schemas.ts: the text of an environment file.
pub mod Shapes
use evm_contract_auditor_hon.Prelude.{
  ℕ, ◌+◌, List, [], ◌∷◌, ◌++◌, Bool, ◌&&◌, ◌||◌, not, any, Option, none, some, Text, codes, length,
  take, drop, ◌-◌, leb, ◌==◌, if◌then◌else◌,
}
use evm_contract_auditor_hon.Prelude.Dict.{Dict, insert}
use evm_contract_auditor_hon.Prelude.Texts.{trim, starts_with, ends_with, index_of, slice}
use evm_contract_auditor_hon.Utils.Retry.{Result, ok, err}
use evm_contract_auditor_hon.Utils.Checks.{◌>>=◌}

-- `content.split(/\r?\n/)`: a carriage return before a line feed goes with it.
unfoldable pub split_lines : Text → List Text
split_lines [] = [] ∷ []
split_lines (c ∷ s) = elim (split_lines s) [
  | [] ↦ []
  | line ∷ lines ↦ if c == 10 then [] ∷ line ∷ lines else (c ∷ line) ∷ lines
]

abbrev pub without_return : Text → Text
without_return s = if ends_with (13 ∷ []) s then take (length s - 1) s else s

-- The last line has no line feed after it, so a carriage return at its end stays.
unfoldable pub lines_of : List Text → List Text
unfolding ends_with
lines_of [] = []
lines_of (line ∷ []) = line ∷ []
lines_of (line ∷ next ∷ rest) = without_return line ∷ lines_of (next ∷ rest)

-- What `.` in a pattern does not match: line feed, carriage return and the two separators.
abbrev pub is_terminator : ℕ → Bool
is_terminator c = c == 10 || (c == 13) || (c == 0x2028) || (c == 0x2029)

-- `value.replace(/^"(.*)"$/, "$1")`
unfoldable pub unquote : Text → Text
unfolding starts_with ends_with
unquote s =
    if leb 2 (length s)
      && starts_with (codes "\"") s
      && ends_with (codes "\"") s
      && not (any is_terminator s)
    then slice 1 (length s - 1) s
    else s

pub data Line : Type 0 where
  skipped : Line
  pair : Text → Text → Line

abbrev pub line_pair : Text → Text → Text → Result Line
line_pair line [] value = err (codes "invalid_env_key:" ++ line)
line_pair line (c ∷ key) value = ok (pair (c ∷ key) (unquote value))

abbrev pub split_at_equals : Text → Option ℕ → Result Line
split_at_equals line none = err (codes "invalid_env_line:" ++ line)
split_at_equals line (some i) = line_pair line (trim (take i line)) (trim (drop (i + 1) line))

-- One round of the loop, on a line that is trimmed.
unfoldable pub read_line : Text → Result Line
unfolding index_of unquote trim
read_line [] = ok skipped
read_line (c ∷ s) =
    if c == b'#' then ok skipped else split_at_equals (c ∷ s) (index_of (codes "=") (c ∷ s))

abbrev pub store : Line → Dict Text → Dict Text
store skipped parsed = parsed
store (pair key value) parsed = insert key value parsed

unfoldable pub read_lines : List Text → Dict Text → Result (Dict Text)
read_lines [] parsed = ok parsed
read_lines (raw ∷ rest) parsed = do line ← read_line (trim raw); read_lines rest (store line parsed)

unfoldable pub parse_env_file_document : Text → Result (Dict Text)
unfolding read_lines split_lines lines_of trim
parse_env_file_document content = read_lines (lines_of (split_lines content)) []
