-- ===== src/Client/Json.antt =====
-- rust/src/client.rs: `NamedFilter`, `escape_json`, `filters_json`.
-- A string is the list of its UTF-8 bytes. Every character that the code treats on its own is ASCII,
-- and the bytes of the others are above 127, so the code by characters is the code by bytes.
pub mod Reading
use manka_shreds_sdk.Common.{ℕ, ◌+◌, ◌/◌, ◌%◌, List, [], ◌∷◌, ◌++◌, ltb, ◌==◌, if◌then◌else◌}
use manka_shreds_sdk.Handshake.{hex_digit, codes}

-- `NamedFilter`
pub record NamedFilter : Type 0 where
  pub name : List ℕ
  pub spec_json : List ℕ

-- One round of the loop of `escape_json`
unfoldable pub escape_char : ℕ → List ℕ
escape_char character =
    if character == b'"'
    then b'\\' ∷ b'"' ∷ []
    else if character == b'\\'
    then b'\\' ∷ b'\\' ∷ []
    else if character == 10
    then b'\\' ∷ b'n' ∷ []
    else if character == 13
    then b'\\' ∷ b'r' ∷ []
    else if character == 9
    then b'\\' ∷ b't' ∷ []
    else if ltb character 32
    then b'\\' ∷ b'u' ∷ b'0' ∷ b'0' ∷ hex_digit (character / 16) ∷ hex_digit (character % 16) ∷ []
    else character ∷ []

unfoldable pub escape_chars : List ℕ → List ℕ
unfolding escape_char
escape_chars [] = []
escape_chars (character ∷ value) = escape_char character ++ escape_chars value

-- `escape_json`
unfoldable pub escape_json : List ℕ → List ℕ → List ℕ
unfolding escape_chars
escape_json value out = out ++ (b'"' ∷ escape_chars value) ++ (b'"' ∷ [])

-- The objects of the loop of `filters_json`, from `index` on
unfoldable pub filter_objects : ℕ → List NamedFilter → List ℕ → List ℕ
unfolding escape_json
filter_objects index [] json = json
filter_objects index (filter ∷ filters) json =
    let separated = if ltb 0 index then json ++ codes "," else json in
    let named = escape_json filter.name (separated ++ codes "{\"name\":") in
    filter_objects (index + 1) filters
      (named ++ codes ",\"spec\":" ++ filter.spec_json ++ codes "}")

-- `filters_json`
unfoldable pub filters_json : List NamedFilter → List ℕ
unfolding filter_objects
filters_json filters = filter_objects 0 filters (codes "{\"filters\":[") ++ codes "]}"
