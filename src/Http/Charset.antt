-- ===== src/Http/Charset.antt =====
-- shared/http/safe-fetch.ts: the charset of a body and its decoding. The decoders of the platform are
-- an argument: `decoder label` is none where `new TextDecoder(label)` throws.
use feedpulse.Base.{
  ℕ, Bool, false, not, ◌||◌, Option, none, some, List, [], ◌∷◌, ◌==◌, if◌then◌else◌, take, drop,
  length, coalesce, ◌⊎◌, inl, inr,
}
use mathlib.Core.Option
use feedpulse.Text.Normalize.{codes, trim, is_space, trim_start}
use feedpulse.Text.Keywords.{strip_prefix}
use feedpulse.Text.Characters.{same_text, has_char, lower_ascii}
use feedpulse.Http.SafeFetch.{Response, FetchError}
use feedpulse.Http.Body.{read_bytes_with_limit}

-- `[^";]+` and the like: the longest part before a character that stops it.
unfoldable pub take_before : (ℕ → Bool) → List ℕ → List ℕ
take_before stops [] = []
take_before stops (c ∷ cs) = let part = take_before stops cs in if stops c then [] else c ∷ part

abbrev pub stops_charset : ℕ → Bool
stops_charset c = (c == b'"') || (c == b';')

abbrev pub strip_quote : List ℕ → List ℕ
strip_quote [] = []
strip_quote (c ∷ cs) = if c == b'"' then cs else c ∷ cs

-- `"?([^";]+)` behind `=\s*`. Where nothing is left to capture, the last space is captured instead.
abbrev pub captured : Bool → List ℕ → Option (List ℕ)
captured spaced [] = if spaced then some (0x20 ∷ []) else none
captured spaced (c ∷ cs) = some (c ∷ cs)

unfoldable pub starts_with_space : List ℕ → Bool
unfolding is_space
starts_with_space [] = false
starts_with_space (c ∷ cs) = is_space c

unfoldable pub charset_value : Option (List ℕ) → Option (List ℕ)
unfolding trim_start take_before starts_with_space
charset_value none = none
charset_value (some rest) =
    captured (starts_with_space rest) (take_before stops_charset (strip_quote (trim_start rest)))

-- `charset\s*=` at the head.
unfoldable pub charset_here : List ℕ → Option (List ℕ)
unfolding charset_value strip_prefix trim_start
charset_here text = elim (strip_prefix (codes "charset") (lower_ascii text)) [
  | none ↦ none
  | some _ ↦ charset_value (strip_prefix (codes "=") (trim_start (drop 7 text)))
]

-- The leftmost match of `charset\s*=\s*"?([^";]+)"?`.
unfoldable pub find_charset : List ℕ → Option (List ℕ)
unfolding charset_here
find_charset [] = none
find_charset (c ∷ cs) = let rest = find_charset cs in coalesce (charset_here (c ∷ cs)) rest

unfoldable pub extract_charset : Option (List ℕ) → Option (List ℕ)
unfolding find_charset trim
extract_charset none = none
extract_charset (some content_type) = Option.map trim (find_charset content_type)

abbrev pub is_quote : ℕ → Bool
is_quote c = (c == b'"') || (c == 39)

-- `([^"']+)["']` behind the opening quote.
abbrev pub closed_by_quote : List ℕ → List ℕ → Option (List ℕ)
closed_by_quote [] rest = none
closed_by_quote part [] = none
closed_by_quote (c ∷ part) (quote ∷ rest) = some (c ∷ part)

unfoldable pub quoted_label : List ℕ → Option (List ℕ)
unfolding take_before
quoted_label [] = none
quoted_label (c ∷ cs) =
    let part = take_before is_quote cs in
    if is_quote c then closed_by_quote part (drop (length part) cs) else none

unfoldable pub label_behind : Option (List ℕ) → Option (List ℕ)
unfolding quoted_label trim_start
label_behind none = none
label_behind (some rest) = quoted_label (trim_start rest)

-- `encoding\s*=\s*["']([^"']+)["']` at the head.
unfoldable pub encoding_here : List ℕ → Option (List ℕ)
unfolding label_behind strip_prefix trim_start
encoding_here text = elim (strip_prefix (codes "encoding") (lower_ascii text)) [
  | none ↦ none
  | some _ ↦ label_behind (strip_prefix (codes "=") (trim_start (drop 8 text)))
]

-- `[^>]*` is greedy: the last place before a `>` at which the rest matches.
unfoldable pub last_encoding : List ℕ → Option (List ℕ)
unfolding encoding_here
last_encoding [] = none
last_encoding (c ∷ cs) =
    let later = last_encoding cs in
    if c == b'>' then encoding_here (c ∷ cs) else coalesce later (encoding_here (c ∷ cs))

unfoldable pub declaration_here : List ℕ → Option (List ℕ)
unfolding last_encoding strip_prefix
declaration_here text = elim (strip_prefix (codes "<?xml") (lower_ascii text)) [
  | none ↦ none
  | some _ ↦ last_encoding (drop 5 text)
]

unfoldable pub find_declaration : List ℕ → Option (List ℕ)
unfolding declaration_here
find_declaration [] = none
find_declaration (c ∷ cs) =
    let rest = find_declaration cs in coalesce (declaration_here (c ∷ cs)) rest

-- `latin1` is the decoder of that label, which the platform has.
unfoldable pub sniff_xml_declaration_charset : (List ℕ → List ℕ) → List ℕ → Option (List ℕ)
unfolding find_declaration trim
sniff_xml_declaration_charset latin1 buffer =
    Option.map trim (find_declaration (latin1 (take 200 buffer)))

-- `/^utf-?8$/i`
unfoldable pub is_utf8_label : List ℕ → Bool
is_utf8_label label =
    same_text (lower_ascii label) (codes "utf-8") || same_text (lower_ascii label) (codes "utf8")

abbrev pub decoded : List ℕ → List ℕ → Option (List ℕ → List ℕ) → List ℕ
decoded buffer as_utf8 none = as_utf8
decoded buffer as_utf8 (some decode) = decode buffer

-- `decodeBody`; an empty label counts as none.
unfoldable pub decode_body :
    (List ℕ → List ℕ) → (List ℕ → Option (List ℕ → List ℕ)) → List ℕ → Option (List ℕ) → List ℕ
unfolding has_char is_utf8_label
decode_body utf8 decoder buffer none = utf8 buffer
decode_body utf8 decoder buffer (some []) = utf8 buffer
decode_body utf8 decoder buffer (some (c ∷ label)) =
    if not (has_char 0xfffd (utf8 buffer)) || is_utf8_label (c ∷ label)
    then utf8 buffer
    else decoded buffer (utf8 buffer) (decoder (c ∷ label))

-- The decoders of the platform.
pub record Decoders : Type 0 where
  pub utf8 : List ℕ → List ℕ
  pub latin1 : List ℕ → List ℕ
  pub labelled : List ℕ → Option (List ℕ → List ℕ)

unfoldable pub declared_charset :
    Decoders → Option (List ℕ) → Option (List ℕ) → List ℕ → Option (List ℕ)
unfolding extract_charset sniff_xml_declaration_charset
declared_charset d hint content_type buffer =
    coalesce hint
      (coalesce (extract_charset content_type) (sniff_xml_declaration_charset d.latin1 buffer))

abbrev pub decode_read :
    Decoders → Option (List ℕ) → Response → FetchError ⊎ List ℕ → FetchError ⊎ List ℕ
decode_read d hint response (inl e) = inl e
decode_read d hint response (inr buffer) =
    inr
      (decode_body d.utf8 d.labelled buffer (declared_charset d hint response.content_type buffer))

-- `readBodyWithLimit`.
unfoldable pub read_body_with_limit :
    Decoders → Response → ℕ → Option (List ℕ) → FetchError ⊎ List ℕ
unfolding read_bytes_with_limit declared_charset decode_body
read_body_with_limit d response max_bytes charset_hint =
    decode_read d charset_hint response (read_bytes_with_limit max_bytes response)
