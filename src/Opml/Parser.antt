-- ===== src/Opml/Parser.antt =====
-- modules/opml-imports/domain/opml-parser.ts. A text is the list of its code points.
use feedpulse.Base.{
  ℕ, suc, zero, ◌+◌, ◌-◌, Bool, not, ◌&&◌, ◌||◌, Option, none, some, List, [], ◌∷◌, ◌++◌, reverse,
  leb, ltb, ◌==◌, if◌then◌else◌, length, drop, or_else, coalesce,
}
use feedpulse.Text.Normalize.{codes, trim, trim_start}
use feedpulse.Text.Keywords.{strip_prefix}
use feedpulse.Text.Characters.{same_text, has_prefix, is_digit, lower_ascii}

pub record ParsedOpmlItem : Type 0 where
  pub title : Option (List ℕ)
  pub outline_path : Option (List ℕ)
  pub source_xml_url : List ℕ

-- `Buffer.byteLength(text, 'utf8')`
unfoldable pub byte_length : List ℕ → ℕ
byte_length [] = 0
byte_length (c ∷ cs) =
    (if ltb c 0x80 then 1 else if ltb c 0x800 then 2 else if ltb c 0x10000 then 3 else 4)
    + byte_length cs

-- `.replace(/pattern/g, by)` for a pattern without operators; the number is how many characters of the
-- last match are still to be skipped.
unfoldable pub replace_from : List ℕ → List ℕ → ℕ → List ℕ → List ℕ
unfolding has_prefix
replace_from pattern by skip [] = []
replace_from pattern by (suc skip) (c ∷ cs) = replace_from pattern by skip cs
replace_from pattern by zero (c ∷ cs) =
    let replaced = by ++ replace_from pattern by (length pattern - 1) cs in
    let kept = c ∷ replace_from pattern by zero cs in
    if has_prefix (c ∷ cs) pattern then replaced else kept

unfoldable pub decode_xml_entities : List ℕ → List ℕ
unfolding replace_from
decode_xml_entities input = replace_from (codes "&amp;") (codes "&") 0 (
    replace_from (codes "&gt;") (codes ">") 0 (
      replace_from (codes "&lt;") (codes "<") 0 (
        replace_from (codes "&apos;") (39 ∷ []) 0
          (replace_from (codes "&quot;") (codes "\"") 0 input))))

-- `\w`
abbrev pub is_word_char : ℕ → Bool
is_word_char c =
    is_digit c || (leb b'a' c && leb c b'z') || (leb b'A' c && leb c b'Z') || (c == b'_')

-- `outline\b` at the head, in any case: what stands behind it.
abbrev pub at_boundary : Option (List ℕ) → Option (List ℕ)
at_boundary none = none
at_boundary (some []) = some []
at_boundary (some (c ∷ cs)) = if is_word_char c then none else some (c ∷ cs)

abbrev pub skip_slash : List ℕ → List ℕ
skip_slash [] = []
skip_slash (c ∷ cs) = if c == b'/' then cs else c ∷ cs

abbrev pub outline_word : List ℕ → Option (List ℕ)
outline_word text = elim (strip_prefix (codes "outline") (lower_ascii text)) [
  | none ↦ none
  | some _ ↦ some (drop 7 text)
]

-- `<\/?\s*outline\b` at the head: what stands behind it.
unfoldable pub behind_outline : List ℕ → Option (List ℕ)
unfolding strip_prefix trim_start
behind_outline [] = none
behind_outline (c ∷ cs) =
    if c == b'<' then at_boundary (outline_word (trim_start (skip_slash cs))) else none

-- The characters up to and with the first `>`.
unfoldable pub up_to_close : List ℕ → Option (List ℕ)
up_to_close [] = none
up_to_close (c ∷ cs) =
    let rest = up_to_close cs in
    if c == b'>' then some (c ∷ []) else elim rest [ none ↦ none | some part ↦ some (c ∷ part) ]

abbrev pub closed_tag : List ℕ → Option (List ℕ) → Option (List ℕ)
closed_tag text none = none
closed_tag text (some behind) = up_to_close text

-- `<\/?\s*outline\b[^>]*>` at the head: the match. No `>` stands in what is before `outline\b`.
unfoldable pub tag_here : List ℕ → Option (List ℕ)
unfolding behind_outline up_to_close
tag_here text = closed_tag text (behind_outline text)

abbrev pub tag_length : Option (List ℕ) → ℕ
tag_length none = 0
tag_length (some tag) = length tag

-- `xml.match(/.../gi)`: the number is how many characters of the last match are still to be skipped.
unfoldable pub tags_from : ℕ → List ℕ → List (List ℕ)
unfolding tag_here
tags_from skip [] = []
tags_from (suc skip) (c ∷ cs) = tags_from skip cs
tags_from zero (c ∷ cs) =
    let rest = tags_from (tag_length (tag_here (c ∷ cs)) - 1) cs in
    elim (tag_here (c ∷ cs)) [ none ↦ rest | some tag ↦ tag ∷ rest ]

-- `[a-zA-Z_:]` and `[-a-zA-Z0-9_:.]`
abbrev pub starts_name : ℕ → Bool
starts_name c = (is_word_char c && not (is_digit c)) || (c == b':')

abbrev pub continues_name : ℕ → Bool
continues_name c = is_word_char c || (c == b':') || (c == b'.') || (c == b'-')

unfoldable pub take_while : (ℕ → Bool) → List ℕ → List ℕ
take_while p [] = []
take_while p (c ∷ cs) = let rest = take_while p cs in if p c then c ∷ rest else []

-- A match of the pattern of attributes: the key, the value, and its whole length.
pub record AttributeMatch : Type 0 where
  pub key : List ℕ
  pub value : List ℕ
  pub size : ℕ

abbrev pub quoted : List ℕ → ℕ → ℕ → List ℕ → Option AttributeMatch
unfolding take_while
quoted key before quote behind =
    let value = take_while (λ c. not (c == quote)) behind in
    elim (drop (length value) behind) [
      | [] ↦ none
      | _ ∷ _ ↦ some (record { key = key; value = value; size = before + length value + 2 })
    ]

-- `("([^"]*)"|'([^']*)')` behind `before` characters.
abbrev pub quoted_value : List ℕ → ℕ → List ℕ → Option AttributeMatch
quoted_value key before [] = none
quoted_value key before (c ∷ cs) = if (c == b'"') || (c == 39) then quoted key before c cs else none

abbrev pub behind_equals : List ℕ → ℕ → List ℕ → Option AttributeMatch
unfolding trim_start
behind_equals key before [] = none
behind_equals key before (c ∷ cs) =
    if c == b'='
    then quoted_value key (before + 1 + (length cs - length (trim_start cs))) (trim_start cs)
    else none

unfoldable pub attribute_here : List ℕ → Option AttributeMatch
unfolding take_while trim_start
attribute_here [] = none
attribute_here (c ∷ cs) =
    let name = c ∷ take_while continues_name cs in
    let behind = drop (length name) (c ∷ cs) in
    if starts_name c
    then behind_equals name (length name + (length behind - length (trim_start behind)))
        (trim_start behind)
    else none

abbrev pub match_size : Option AttributeMatch → ℕ
match_size none = 0
match_size (some m) = m.size

-- The loop of `attrRegex.exec`.
unfoldable pub attributes_from : ℕ → List ℕ → List (List ℕ × List ℕ)
unfolding attribute_here decode_xml_entities trim
attributes_from skip [] = []
attributes_from (suc skip) (c ∷ cs) = attributes_from skip cs
attributes_from zero (c ∷ cs) =
    let rest = attributes_from (match_size (attribute_here (c ∷ cs)) - 1) cs in
    elim (attribute_here (c ∷ cs)) [
      | none ↦ rest
      | some m ↦ (m.key, decode_xml_entities (trim m.value)) ∷ rest
    ]

-- `attributes[key]`: the last write of a key counts.
unfoldable pub attribute : List ℕ → List (List ℕ × List ℕ) → Option (List ℕ)
attribute key [] = none
attribute key ((k, v) ∷ rest) =
    coalesce (attribute key rest) (if same_text k key then some v else none)

-- `.replace(/\/?\s*>$/, '')` of a tag, which ends in `>` and has no other.
unfoldable pub strip_tag_end : List ℕ → List ℕ
unfolding trim_start
strip_tag_end tag = reverse (skip_slash (trim_start (drop 1 (reverse tag))))

unfoldable pub parse_attributes : List ℕ → List (List ℕ × List ℕ)
unfolding behind_outline strip_tag_end attributes_from
parse_attributes tag = attributes_from 0 (strip_tag_end (or_else (behind_outline tag) tag))
