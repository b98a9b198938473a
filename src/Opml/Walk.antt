-- ===== src/Opml/Walk.antt =====
-- modules/opml-imports/domain/opml-parser.ts: the walk over the outline tags of a document.
use feedpulse.Base.{
  ℕ, Bool, true, false, not, ◌&&◌, ◌||◌, Option, none, some, List, [], ◌∷◌, ◌++◌, reverse, ltb,
  ◌==◌, if◌then◌else◌, length, map, Result, ok, err, plain_error, or_else, coalesce, is_some,
}
use feedpulse.Text.Normalize.{codes, trim, trim_start}
use feedpulse.Text.Keywords.{strip_prefix}
use feedpulse.Text.Characters.{has_suffix, includes, lower_ascii}
use feedpulse.Opml.Parser.{
  ParsedOpmlItem, byte_length, tags_from, parse_attributes, attribute, outline_word,
}

-- What the walk reads of a tag.
pub record Outline : Type 0 where
  pub is_closing : Bool
  pub is_self_closing : Bool
  pub title : Option (List ℕ)
  pub xml_url : List ℕ

-- `|| null`
abbrev pub or_null : List ℕ → Option (List ℕ)
or_null [] = none
or_null (c ∷ cs) = some (c ∷ cs)

-- `^<\/\s*outline`, which an opening tag does not match.
unfoldable pub is_closing_tag : List ℕ → Bool
unfolding strip_prefix trim_start
is_closing_tag (a ∷ b ∷ cs) = (a == b'<') && (b == b'/') && is_some (outline_word (trim_start cs))
is_closing_tag _ = false

unfoldable pub outline_of : List ℕ → Outline
unfolding is_closing_tag trim
outline_of tag =
    let trimmed = trim tag in
    let attributes = parse_attributes trimmed in
    record {
      is_closing = is_closing_tag trimmed;
      is_self_closing = has_suffix trimmed (codes "/>");
      title = or_null (
          trim (
            or_else
              (coalesce (attribute (codes "title") attributes)
                (attribute (codes "text") attributes))
              []));
      xml_url = trim (
          or_else
            (coalesce (attribute (codes "xmlUrl") attributes)
              (attribute (codes "xmlurl") attributes))
            []);
    }

-- `join(' / ')`
unfoldable pub join_path : List (List ℕ) → List ℕ
join_path [] = []
join_path (part ∷ []) = part
join_path (part ∷ next ∷ parts) = part ++ codes " / " ++ join_path (next ∷ parts)

abbrev pub title_part : Option (List ℕ) → List (List ℕ)
title_part none = []
title_part (some title) = title ∷ []

-- The innermost folder stands first in `stack`.
unfoldable pub item_of : List (List ℕ) → Option (List ℕ) → List ℕ → ParsedOpmlItem
unfolding trim join_path
item_of stack title xml_url = record {
  title = title;
  outline_path = or_null (trim (join_path (reverse stack ++ title_part title)));
  source_xml_url = xml_url;
}

abbrev pub add_item : ParsedOpmlItem → Result (List ParsedOpmlItem) → Result (List ParsedOpmlItem)
add_item item (ok items) = ok (item ∷ items)
add_item item (err e) = err e

-- The stack behind an opening tag without a url.
abbrev pub pushed : Bool → Option (List ℕ) → List (List ℕ) → List (List ℕ)
pushed self_closing none stack = stack
pushed self_closing (some title) stack = if self_closing then stack else title ∷ stack

-- One round of the walk; the rounds behind it are given as a function of the stack.
abbrev pub open_tag :
    (List (List ℕ) → Result (List ParsedOpmlItem))
    → List (List ℕ)
    → Bool
    → Option (List ℕ)
    → List ℕ
    → Result (List ParsedOpmlItem)
open_tag rest stack self_closing title [] = rest (pushed self_closing title stack)
open_tag rest stack self_closing title (c ∷ url) =
    add_item (item_of stack title (c ∷ url)) (rest stack)

abbrev pub close_tag :
    (List (List ℕ) → Result (List ParsedOpmlItem)) → List (List ℕ) → Result (List ParsedOpmlItem)
close_tag rest [] = err (plain_error "opml_malformed_outline")
close_tag rest (title ∷ stack) = rest stack

unfoldable pub walk : List (List ℕ) → List Outline → Result (List ParsedOpmlItem)
walk [] [] = ok []
walk (title ∷ stack) [] = err (plain_error "opml_malformed_outline")
walk stack (o ∷ outlines) =
    if o.is_closing
    then close_tag (λ s. walk s outlines) stack
    else open_tag (λ s. walk s outlines) stack o.is_self_closing o.title o.xml_url

abbrev pub is_empty_text : List ℕ → Bool
is_empty_text [] = true
is_empty_text _ = false

-- `extractOpmlItems`.
unfoldable pub extract_opml_items : ℕ → ℕ → List ℕ → Result (List ParsedOpmlItem)
unfolding trim
extract_opml_items max_bytes max_outline_tags opml_xml =
    let xml = trim opml_xml in
    let tags = tags_from 0 xml in
    if ltb max_bytes (byte_length opml_xml)
    then err (plain_error "opml_too_large")
    else if is_empty_text xml || not (includes (lower_ascii xml) (codes "<opml"))
    then err (plain_error "opml_invalid_root")
    else if includes (lower_ascii xml) (codes "<!doctype")
        || includes (lower_ascii xml) (codes "<!entity")
    then err (plain_error "opml_doctype_not_allowed")
    else if ltb max_outline_tags (length tags)
    then err (plain_error "opml_outline_limit_exceeded")
    else walk [] (map outline_of tags)

abbrev pub default_max_opml_bytes : ℕ
default_max_opml_bytes = 2097152

abbrev pub default_max_outline_tags : ℕ
default_max_outline_tags = 20000
