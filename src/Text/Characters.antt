-- ===== src/Text/Characters.antt =====
-- Searches in texts as code points, in the way of JavaScript's strings and patterns: the parts that
-- shared/http/url-safety.ts, modules/opml-imports/domain and the domain code beside them share.
use feedpulse.Base.{
  ℕ, ◌+◌, ◌*◌, ◌-◌, ◌/◌, ◌%◌, Bool, true, false, ◌&&◌, ◌||◌, List, [], ◌∷◌, reverse, map, leb, ltb,
  ◌==◌, if◌then◌else◌,
}

abbrev pub same_text : List ℕ → List ℕ → Bool
same_text [] [] = true
same_text [] (d ∷ ds) = false
same_text (c ∷ cs) [] = false
same_text (c ∷ cs) (d ∷ ds) = (c == d) && same_text cs ds

-- `text.startsWith(prefix)`
unfoldable pub has_prefix : List ℕ → List ℕ → Bool
has_prefix text [] = true
has_prefix [] (p ∷ ps) = false
has_prefix (c ∷ cs) (p ∷ ps) = (c == p) && has_prefix cs ps

-- `text.endsWith(suffix)`
unfoldable pub has_suffix : List ℕ → List ℕ → Bool
unfolding has_prefix
has_suffix text suffix = has_prefix (reverse text) (reverse suffix)

-- `text.includes(part)`
unfoldable pub includes : List ℕ → List ℕ → Bool
unfolding has_prefix
includes [] part = has_prefix [] part
includes (c ∷ cs) part = has_prefix (c ∷ cs) part || includes cs part

unfoldable pub has_char : ℕ → List ℕ → Bool
has_char c [] = false
has_char c (d ∷ ds) = (c == d) || has_char c ds

-- `text.split(separator)` for a separator of one character.
abbrev pub put_in_front : ℕ → List (List ℕ) → List (List ℕ)
put_in_front c [] = (c ∷ []) ∷ []
put_in_front c (part ∷ parts) = (c ∷ part) ∷ parts

unfoldable pub split_on : ℕ → List ℕ → List (List ℕ)
split_on separator [] = [] ∷ []
split_on separator (c ∷ cs) =
    let parts = split_on separator cs in if c == separator then [] ∷ parts else put_in_front c parts

-- `\d`
abbrev pub is_digit : ℕ → Bool
is_digit c = leb b'0' c && leb c b'9'

-- `[0-9a-f]`
abbrev pub is_hex_digit : ℕ → Bool
is_hex_digit c = is_digit c || (leb b'a' c && leb c b'f')

abbrev pub hex_value : ℕ → ℕ
hex_value c = if is_digit c then c - b'0' else c - b'a' + 10

-- `Number.parseInt(text, 16)` of a text of such digits, on top of what stands before it.
unfoldable pub parse_hex_from : ℕ → List ℕ → ℕ
parse_hex_from n [] = n
parse_hex_from n (c ∷ cs) = parse_hex_from (n * 16 + hex_value c) cs

-- The decimal digits of a byte.
unfoldable pub print_byte : ℕ → List ℕ
print_byte n =
    if ltb n 10
    then (b'0' + n) ∷ []
    else if ltb n 100
    then (b'0' + n / 10) ∷ (b'0' + n % 10) ∷ []
    else (b'0' + n / 100) ∷ (b'0' + n / 10 % 10) ∷ (b'0' + n % 10) ∷ []

-- `toLowerCase` of an ASCII text.
abbrev pub lower_char : ℕ → ℕ
lower_char c = if leb b'A' c && leb c b'Z' then c + 32 else c

abbrev pub lower_ascii : List ℕ → List ℕ
lower_ascii cs = map lower_char cs
