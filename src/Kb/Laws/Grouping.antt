-- ===== src/Kb/Laws/Grouping.antt =====
-- The navigation of kb-src/kb-app.js against its description.
use text.Mathlib.TextEquality.{eq_iff}
use certadillo.Prelude.{
  ◌≡◌, Bool, not, ◌&&◌, String, List, [], ◌∷◌, ◌++◌, filter, arith, str_eq, if◌then◌else◌,
  append-nil, append_assoc, sym,
}
use certadillo.Kb.Page.{Page}
use certadillo.Kb.Nav.{Group, file_page, group_pages, groups}

-- The items under a heading.
unfoldable pub items_of : String → List Group → List Page
items_of name [] = []
items_of name (g ∷ gs) = if str_eq g.name name then g.items else items_of name gs

-- The pages that belong under it.
abbrev pub belongs : String → Page → Bool
belongs name p = not p.hidden && str_eq p.group name

items_of-file_page :
    (name : String) (p : Page) (gs : List Group)
    → items_of name (file_page p gs)
      ≡ (if str_eq p.group name then items_of name gs ++ p ∷ [] else items_of name gs)
unfolding items_of file_page
items_of-file_page name p [] = ground arith
items_of-file_page name p (g ∷ gs) = ground (
  arith,
  eq_iff g.name p.group,
  eq_iff p.group name,
  eq_iff g.name name,
  items_of-file_page name p gs,
)

items_of-group_pages :
    (name : String) (ps : List Page) (gs : List Group)
    → items_of name (group_pages ps gs) ≡ items_of name gs ++ filter (belongs name) ps
unfolding group_pages
items_of-group_pages name [] gs = sym (append-nil (items_of name gs))
items_of-group_pages name (p ∷ ps) gs = ground (
  arith,
  items_of-group_pages name ps gs,
  items_of-group_pages name ps (file_page p gs),
  items_of-file_page name p gs,
  append_assoc (items_of name gs) (p ∷ []) (filter (belongs name) ps),
)

-- Under each heading stand exactly the pages of that group that are not hidden, in the order of the
-- pages.
pub groups_lem :
    (name : String) (ps : List Page) → items_of name (groups ps) ≡ filter (belongs name) ps
unfolding groups
groups_lem name ps = unfold items_of in items_of-group_pages name ps []
