-- ===== src/Opml/Folders.antt =====
-- What the walk over the tags of a subscription list makes of its folders and feeds.
use feedpulse.Base.{
  ℕ, ◌≡◌, refl, sym, ap, ◌∙◌, Bool, true, false, Option, none, some, List, [], ◌∷◌, ◌++◌, String,
  Result, ok, err, plain_error,
}
use mathlib.Core.List.{append_assoc, append-nil}
use feedpulse.Opml.Parser.{ParsedOpmlItem}
use feedpulse.Opml.Walk.{Outline, add_item, walk}
use feedpulse.Opml.Paths.{path_with, feed_item, stack_path, item_of-feed_item}

-- A list of folders and feeds, each before the rest of the list. The titles of folders and the urls
-- of feeds are not empty: a first character and the rest.
pub data Forest : Type 0 where
  end : Forest
  folder : List ℕ → Forest → Forest → Forest
  feed : Option (List ℕ) → ℕ → List ℕ → Forest → Forest

abbrev pub open_folder : List ℕ → Outline
open_folder title = record {
  is_closing = false;
  is_self_closing = false;
  title = some title;
  xml_url = [];
}

abbrev pub close_outline : Outline
close_outline = record { is_closing = true; is_self_closing = false; title = none; xml_url = [] }

abbrev pub feed_outline : Bool → Option (List ℕ) → List ℕ → Outline
feed_outline self_closing title url = record {
  is_closing = false;
  is_self_closing = self_closing;
  title = title;
  xml_url = url;
}

-- The tags of the list: a folder is opened and closed, a feed is one self-closing tag.
unfoldable pub outlines_of : Forest → List Outline
outlines_of end = []
outlines_of (folder title kids rest) =
    open_folder title ∷ (outlines_of kids ++ close_outline ∷ outlines_of rest)
outlines_of (feed title c url rest) = feed_outline true title (c ∷ url) ∷ outlines_of rest

-- The feeds of a list below a folder with a path, or at the top, in order.
unfoldable pub items_of : Option (List ℕ) → Forest → List ParsedOpmlItem
items_of path end = []
items_of path (folder title kids rest) =
    items_of (some (path_with path title)) kids ++ items_of path rest
items_of path (feed title c url rest) = feed_item path title (c ∷ url) ∷ items_of path rest

abbrev add_items : List ParsedOpmlItem → Result (List ParsedOpmlItem) → Result (List ParsedOpmlItem)
add_items [] result = result
add_items (item ∷ items) result = add_item item (add_items items result)

add_items-append :
    (xs ys : List ParsedOpmlItem) (result : Result (List ParsedOpmlItem))
    → add_items (xs ++ ys) result ≡ add_items xs (add_items ys result)
add_items-append [] ys result = refl
add_items-append (x ∷ xs) ys result = ap (add_item x) (add_items-append xs ys result)

add_items-ok : (xs : List ParsedOpmlItem) → add_items xs (ok []) ≡ ok xs
add_items-ok [] = refl
add_items-ok (x ∷ xs) = ap (add_item x) (add_items-ok xs)

add_items-err :
    (xs : List ParsedOpmlItem) (message : String)
    → add_items xs (err (plain_error message)) ≡ err (plain_error message)
add_items-err [] message = refl
add_items-err (x ∷ xs) message = ap (add_item x) (add_items-err xs message)

-- A feed's tag gives its item, with the titles of the open folders around it.
walk-feed :
    (stack : List (List ℕ)) (title : Option (List ℕ)) (c : ℕ) (url : List ℕ) (tags : List Outline)
    → walk stack (feed_outline true title (c ∷ url) ∷ tags)
      ≡ add_item (feed_item (stack_path stack) title (c ∷ url)) (walk stack tags)
unfolding walk
walk-feed [] title c url tags =
    ap (λ item. add_item item (walk [] tags)) (item_of-feed_item [] title (c ∷ url))
walk-feed (t ∷ stack) title c url tags =
    ap (λ item. add_item item (walk (t ∷ stack) tags))
      (item_of-feed_item (t ∷ stack) title (c ∷ url))

-- The walk over the tags of a list gives its feeds, and goes on with the stack as it was.
walk-outlines :
    (stack : List (List ℕ)) (f : Forest) (tags : List Outline)
    → walk stack (outlines_of f ++ tags)
      ≡ add_items (items_of (stack_path stack) f) (walk stack tags)
unfolding walk outlines_of items_of
walk-outlines stack end tags = refl
walk-outlines stack (feed title c url rest) tags =
    walk-feed stack title c url (outlines_of rest ++ tags)
    ∙ ap (add_item _) (walk-outlines stack rest tags)
walk-outlines stack (folder title kids rest) tags =
    let path = stack_path stack in
    let inside = items_of (some (path_with path title)) kids in
    ap (walk (title ∷ stack))
      (append_assoc (outlines_of kids) (close_outline ∷ outlines_of rest) tags)
    ∙ walk-outlines (title ∷ stack) kids (close_outline ∷ (outlines_of rest ++ tags))
    ∙ ap (add_items inside) (walk-outlines stack rest tags)
    ∙ sym (add_items-append inside (items_of path rest) (walk stack tags))

-- Round trip: the tags of a list of folders and feeds, with every folder titled, opened and
-- closed and every feed a self-closing tag with a url, are read as its feeds in order, each with
-- its title, its url, and as its path the titles of the folders around it from the outermost one
-- and then its own, joined by " / " and trimmed, or none if that is empty.
pub walk-outlines_of : (f : Forest) → walk [] (outlines_of f) ≡ ok (items_of none f)
unfolding walk
walk-outlines_of f =
    ap (walk []) (sym (append-nil (outlines_of f)))
    ∙ walk-outlines [] f []
    ∙ add_items-ok (items_of none f)

-- A list in which a feed stands at the top as an opening and a closing tag, behind whatever folders
-- and feeds and before whatever tags, is refused as malformed.
pub paired_feed_refused :
    (f : Forest) (title : Option (List ℕ)) (c : ℕ) (url : List ℕ) (tags : List Outline)
    → walk [] (outlines_of f ++ feed_outline false title (c ∷ url) ∷ close_outline ∷ tags)
      ≡ err (plain_error "opml_malformed_outline")
unfolding walk
paired_feed_refused f title c url tags =
    walk-outlines [] f (feed_outline false title (c ∷ url) ∷ close_outline ∷ tags)
    ∙ add_items-err (items_of none f) "opml_malformed_outline"
