-- ===== src/Content.antt =====
-- content.go: the JSON text of a content, and its limit. A text is its runes. The JSON encoder is
-- the parameter `encode`, contents are pointers to what it encodes, and `empty_map` is
-- `map[string]any{}`.
use mezon_sdk_go.Prelude.{
  ℕ, [], ◌∷◌, ◌++◌, Option, none, some, ltb, ◌==◌, if◌then◌else◌, codes, decimal,
}
use mezon_sdk_go.Errors.{Error, err_text, Result, ok, err}
use mezon_sdk_go.Utf16.{Runes, utf16_len}

abbrev pub max_content_length : ℕ
max_content_length = 8000

-- A newline at the end goes.
unfoldable pub strip_newline : Runes → Runes
strip_newline [] = []
strip_newline (r ∷ []) = if r == 10 then [] else r ∷ []
strip_newline (r ∷ s ∷ rs) = r ∷ strip_newline (s ∷ rs)

unfoldable pub stripped : Result Runes → Result Runes
stripped (err e) = err e
stripped (ok text) = ok (strip_newline text)

unfoldable pub marshal_content : (ℕ → Result Runes) → ℕ → Option ℕ → Result Runes
marshal_content encode empty_map none = stripped (encode empty_map)
marshal_content encode empty_map (some content) = stripped (encode content)

unfoldable pub length_error : ℕ → Error
length_error n = err_text (
    codes "message.content exceeds the allowed length! Maximum total of "
    ++ (decimal max_content_length ++ (codes " characters. Current length: " ++ decimal n)))

unfoldable pub validate_content_length : Runes → Option Error
validate_content_length text =
    if ltb max_content_length (utf16_len text) then some (length_error (utf16_len text)) else none
