-- ===== src/Kb/Route.antt =====
-- Which page is shown: `route` and `render` of kb-src/kb-app.js.
use certadillo.Prelude.{
  String, Bool, true, false, List, [], ◌∷◌, Option, none, some, str_eq, if◌then◌else◌, ◌||◌,
  is_inherited,
}
use certadillo.Kb.Page.{Page}

-- `bySlug`: a later page takes the place of an earlier one with its slug.
unfoldable pub by_slug : List Page → String → Option Page
by_slug [] slug = none
by_slug (p ∷ ps) slug = elim (by_slug ps slug) [
  | none ↦ if str_eq p.slug slug then some p else none
  | some q ↦ some q
]

-- What `render` takes for a page: a page, or what `bySlug` inherits under the name, whose slug, title
-- and body are undefined.
pub data Target : Type 0 where
  page : Page → Target
  inherited : Target

abbrev page_or : Option Page → Bool → List Page → Option Target
page_or (some p) i ps = some (page p)
page_or none true ps = some inherited
page_or none false [] = none
page_or none false (p ∷ _) = some (page p)

-- `bySlug[slug] || pages[0]`.
unfoldable pub page_for : List Page → String → Option Target
unfolding by_slug is_inherited
page_for ps slug = page_or (by_slug ps slug) (is_inherited slug) ps

-- The shell: the page that is shown, the anchor that a link has asked for, and what the session
-- remembers, if it may be read and written.
pub record Shell : Type 0 where
  pub current : Option Target
  pub pending_anchor : Option String
  pub storage_blocked : Bool
  pub kb_last : Option String

abbrev pub not_empty : String → Bool
not_empty String.[] = false
not_empty (String.◌∷◌ _ _) = true

abbrev pub text_or : Option String → String → String
text_or none d = d
text_or (some s) d = if not_empty s then s else d

-- The slug of the address; without one the last page of the session, or home.
unfoldable pub slug_of : Shell → String → String
slug_of sh hash =
    if not_empty hash
    then hash
    else if sh.storage_blocked
    then "home"
    else text_or sh.kb_last "home"

-- `p.slug`, as the storage of the session writes it.
abbrev pub slug_text : Target → String
slug_text (page p) = p.slug
slug_text inherited = "undefined"

-- The end of `render`: a page that is shown at an anchor which is there is not remembered.
unfoldable pub remember : Bool → Target → Shell → Shell
remember at_anchor p sh = record sh {
  kb_last = if at_anchor || sh.storage_blocked then sh.kb_last else some (slug_text p);
}

abbrev pub wants_anchor : (String → Bool) → Option String → Bool
wants_anchor has_anchor none = false
wants_anchor has_anchor (some a) = has_anchor a

-- `route`: `has_anchor` is whether the new page has an element of that id. `none` is the TypeError of
-- an empty list of pages.
unfoldable pub route : List Page → (String → Bool) → String → Shell → Option Shell
unfolding page_for slug_of remember
route ps has_anchor hash sh = elim (page_for ps (slug_of sh hash)) [
  | none ↦ none
  | some p ↦ some (
      remember (wants_anchor has_anchor sh.pending_anchor) p
        (record sh { current = some p; pending_anchor = none }))
]
