-- ===== src/Opml/Paths.antt =====
-- The titles around a feed of a subscription list, and the path that the walk makes of them.
use feedpulse.Base.{ℕ, ◌≡◌, refl, sym, ap, ◌∙◌, Option, none, some, List, [], ◌∷◌, ◌++◌, reverse}
use mathlib.Core.List.{append_assoc, append-nil, reverse-cons}
use feedpulse.Text.Normalize.{codes, trim}
use feedpulse.Opml.Parser.{ParsedOpmlItem}
use feedpulse.Opml.Walk.{item_of, join_path, or_null, title_part}

-- The text of a path that goes on with a title; there is none at the top.
abbrev pub path_with : Option (List ℕ) → List ℕ → List ℕ
path_with none title = title
path_with (some path) title = path ++ codes " / " ++ title

-- The text of a feed's path: the path of its folder, then its title if it has one.
abbrev pub feed_path : Option (List ℕ) → Option (List ℕ) → List ℕ
feed_path path (some title) = path_with path title
feed_path none none = []
feed_path (some path) none = path

-- A text that is empty is no path.
abbrev pub shown_path : List ℕ → Option (List ℕ)
shown_path [] = none
shown_path (c ∷ cs) = some (c ∷ cs)

-- A feed as the preview shows it: its title, its trimmed path and its url.
abbrev pub feed_item : Option (List ℕ) → Option (List ℕ) → List ℕ → ParsedOpmlItem
feed_item path title url = record {
  title = title;
  outline_path = shown_path (trim (feed_path path title));
  source_xml_url = url;
}

-- The path of the innermost folder of a stack, which stands first.
abbrev pub stack_path : List (List ℕ) → Option (List ℕ)
stack_path [] = none
stack_path (title ∷ stack) = some (path_with (stack_path stack) title)

abbrev joined : List (List ℕ) → Option (List ℕ)
joined [] = none
joined (part ∷ parts) = some (join_path (part ∷ parts))

join_path-last :
    (parts : List (List ℕ)) (title : List ℕ)
    → join_path (parts ++ title ∷ []) ≡ path_with (joined parts) title
unfolding join_path
join_path-last [] title = refl
join_path-last (part ∷ []) title = refl
join_path-last (part ∷ next ∷ parts) title =
    ap (λ text. part ++ codes " / " ++ text) (join_path-last (next ∷ parts) title)
    ∙ sym (append_assoc (part ++ codes " / ") (join_path (next ∷ parts) ++ codes " / ") title)
    ∙ ap (λ text. text ++ title)
        (sym (append_assoc (part ++ codes " / ") (join_path (next ∷ parts)) (codes " / ")))

joined-last :
    (parts : List (List ℕ)) (title : List ℕ)
    → joined (parts ++ title ∷ []) ≡ some (path_with (joined parts) title)
joined-last [] title = ap some (join_path-last [] title)
joined-last (part ∷ parts) title = ap some (join_path-last (part ∷ parts) title)

joined-reverse : (stack : List (List ℕ)) → joined (reverse stack) ≡ stack_path stack
joined-reverse [] = refl
joined-reverse (title ∷ stack) =
    ap joined (reverse-cons title stack)
    ∙ joined-last (reverse stack) title
    ∙ ap (λ path. some (path_with path title)) (joined-reverse stack)

joined-text : (parts : List (List ℕ)) → join_path parts ≡ feed_path (joined parts) none
unfolding join_path
joined-text [] = refl
joined-text (part ∷ parts) = refl

join_path-feed :
    (stack : List (List ℕ)) (title : Option (List ℕ))
    → join_path (reverse stack ++ title_part title) ≡ feed_path (stack_path stack) title
join_path-feed stack none =
    ap join_path (append-nil (reverse stack))
    ∙ joined-text (reverse stack)
    ∙ ap (λ path. feed_path path none) (joined-reverse stack)
join_path-feed stack (some title) =
    join_path-last (reverse stack) title ∙ ap (λ path. path_with path title) (joined-reverse stack)

or_null-shown : (text : List ℕ) → or_null text ≡ shown_path text
or_null-shown [] = refl
or_null-shown (c ∷ cs) = refl

pub item_of-feed_item :
    (stack : List (List ℕ)) (title : Option (List ℕ)) (url : List ℕ)
    → item_of stack title url ≡ feed_item (stack_path stack) title url
unfolding item_of
item_of-feed_item stack title url =
    ap (λ path. record { title = title; outline_path = path; source_xml_url = url })
      (or_null-shown _ ∙ ap (λ text. shown_path (trim text)) (join_path-feed stack title))
