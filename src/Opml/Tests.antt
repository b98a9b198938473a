-- ===== src/Opml/Tests.antt =====
-- Runs of the parser and the preview of subscription lists, and an application of each theorem.
use feedpulse.Base.{
  ℕ, ◌≡◌, refl, true, false, none, some, List, [], ◌∷◌, ◌++◌, String, ok, err, plain_error, All,
  find, any,
}
use feedpulse.Text.Normalize.{codes, trim}
use feedpulse.Text.Keywords.{strip_prefix}
use feedpulse.Text.Characters.{has_prefix, has_suffix, includes}
use feedpulse.Http.UrlSafety.{Url, is_safe_public_url, check_url}
use feedpulse.Opml.Urls.{
  UrlPlatform, normalize_feed_url, normalize_parsed, normalized_url, normalized_pathname,
  collapse_slashes, build_normalized_feed_url_hash,
}
use feedpulse.Opml.Parser.{
  ParsedOpmlItem, byte_length, tags_from, tag_here, behind_outline, up_to_close, take_while,
  attribute_here, attributes_from, attribute, parse_attributes, strip_tag_end, decode_xml_entities,
  replace_from,
}
use feedpulse.Opml.Walk.{outline_of, is_closing_tag, join_path, item_of, walk, extract_opml_items}
use feedpulse.Opml.Folders.{
  Forest, end, folder, feed, outlines_of, items_of, feed_outline, close_outline, walk-outlines_of,
  paired_feed_refused,
}
use feedpulse.Opml.Tables.{new, duplicate, OpmlImportItemInput}
use feedpulse.Opml.Preview.{
  classify_local_item, check_seen, draft_items, existing_feed, against_feed, check_existing,
  checked_items, preview_items,
}
use feedpulse.Opml.Distinct.{IsNew, PairwiseApart}
use feedpulse.Opml.NewItems.{preview_items-IsNew}

abbrev pub document : List ℕ
document =
    codes
      "<opml><body><outline text='News'><outline text=\"A&amp;B\" xmlUrl=\" https://a.org/f \"/></outline></body></opml>"

abbrev parsed_item : ParsedOpmlItem
parsed_item = record {
  title = some (codes "A&B");
  outline_path = some (codes "News / A&B");
  source_xml_url = codes "https://a.org/f";
}

extract_test : extract_opml_items 1000 20000 document ≡ ok (parsed_item ∷ [])
unfolding extract_opml_items byte_length tags_from tag_here behind_outline up_to_close take_while
    attribute_here attributes_from attribute parse_attributes strip_tag_end decode_xml_entities
    replace_from outline_of is_closing_tag join_path item_of walk has_prefix has_suffix includes
    strip_prefix trim
extract_test = refl

-- The same feed as an opening and a closing tag.
extract_paired_test :
    extract_opml_items 1000 20000
      (codes "<opml><outline text=\"A\" xmlUrl=\"https://a.org/f\"></outline></opml>")
    ≡ err (plain_error "opml_malformed_outline")
unfolding extract_opml_items byte_length tags_from tag_here behind_outline up_to_close take_while
    attribute_here attributes_from attribute parse_attributes strip_tag_end decode_xml_entities
    replace_from outline_of is_closing_tag join_path item_of walk has_prefix has_suffix includes
    strip_prefix trim
extract_paired_test = refl

abbrev forest : Forest
forest = folder (codes "News") (feed (some (codes "A")) b'a' (codes ".org") end) end

walk-outlines_of_example : walk [] (outlines_of forest) ≡ ok (items_of none forest)
walk-outlines_of_example = walk-outlines_of forest

paired_feed_refused_example :
    walk []
      (outlines_of forest ++ feed_outline false none (b'b' ∷ codes ".org") ∷ close_outline ∷ [])
    ≡ err (plain_error "opml_malformed_outline")
paired_feed_refused_example = paired_feed_refused forest none b'b' (codes ".org") []

abbrev site : Url
site = record {
  protocol = "https:";
  hostname = codes "a.org";
  port = "443";
  pathname = codes "//f/";
  hash = "#x";
  others = "";
}

-- Every text is the same url.
abbrev pub platform : UrlPlatform
platform = record {
  parse_url = λ text. some site;
  href = λ url. "https://a.org/f";
  sha256 = λ text. text;
}

normalized_test : normalized_url site ≡ record site { port = ""; pathname = codes "/f"; hash = "" }
unfolding normalized_url normalized_pathname collapse_slashes
normalized_test = refl

abbrev twice : List ℕ
twice = codes "<opml><outline xmlUrl='https://a.org/f'/><outline xmlUrl='https://a.org/f/'/></opml>"

abbrev first_input : OpmlImportItemInput
first_input = record {
  title = none;
  outline_path = none;
  source_xml_url = codes "https://a.org/f";
  normalized_url = some "https://a.org/f";
  normalized_url_hash = some "https://a.org/f";
  item_status = new;
  validation_error = none;
}

abbrev second_input : OpmlImportItemInput
second_input = record first_input {
  source_xml_url = codes "https://a.org/f/";
  item_status = duplicate;
  validation_error = some "duplicate_within_opml";
}

preview_test :
    preview_items platform true 1000 "acme" [] twice ≡ ok (first_input ∷ second_input ∷ [])
unfolding preview_items extract_opml_items byte_length tags_from tag_here behind_outline up_to_close
    take_while attribute_here attributes_from attribute parse_attributes strip_tag_end
    decode_xml_entities replace_from outline_of is_closing_tag join_path item_of walk has_prefix
    has_suffix includes strip_prefix trim classify_local_item normalize_feed_url normalize_parsed
    is_safe_public_url check_url build_normalized_feed_url_hash draft_items check_seen any
    checked_items check_existing existing_feed against_feed find
preview_test = refl

preview_items-IsNew_example :
    PairwiseApart (first_input ∷ second_input ∷ [])
    × All
        (λ i.
          (hash url : String)
          → IsNew hash i
          → i.normalized_url ≡ some url
          → existing_feed "acme" [] hash ≡ none)
        (first_input ∷ second_input ∷ [])
preview_items-IsNew_example =
    preview_items-IsNew platform true 1000 "acme" [] twice (first_input ∷ second_input ∷ [])
      preview_test
