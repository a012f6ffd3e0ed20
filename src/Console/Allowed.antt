-- ===== src/Console/Allowed.antt =====
-- Which tags the views of src/certadillo/web/static/console.js may be read into: elements of tables,
-- lists, texts and forms, with attributes that start no script and load nothing.
use certadillo.Prelude.{Bool, List, [], ◌∷◌, codes}
use certadillo.Markup.{Text}
use certadillo.Markup.Allowed.{allows}

abbrev element_names : List Text
element_names =
    codes "table"
    ∷ codes "tr"
    ∷ codes "td"
    ∷ codes "th"
    ∷ codes "span"
    ∷ codes "div"
    ∷ codes "br"
    ∷ codes "p"
    ∷ codes "b"
    ∷ codes "code"
    ∷ codes "pre"
    ∷ codes "ul"
    ∷ codes "ol"
    ∷ codes "li"
    ∷ codes "h2"
    ∷ codes "h3"
    ∷ codes "label"
    ∷ codes "button"
    ∷ codes "select"
    ∷ codes "option"
    ∷ codes "input"
    ∷ []

-- The attributes with a value, with their empty quotes, and those without one.
abbrev attribute_names : List Text
attribute_names =
    codes "class=\"\""
    ∷ codes "value=\"\""
    ∷ codes "title=\"\""
    ∷ codes "type=\"\""
    ∷ codes "placeholder=\"\""
    ∷ codes "selected"
    ∷ codes "checked"
    ∷ []

unfoldable pub is_allowed : Text → Bool
unfolding allows
is_allowed t = allows element_names attribute_names t
