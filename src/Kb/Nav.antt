-- ===== src/Kb/Nav.antt =====
-- The navigation of kb-src/kb-app.js: pages by group, in the order in which they appear.
use certadillo.Prelude.{String, List, [], ◌∷◌, ◌++◌, str_eq, if◌then◌else◌}
use certadillo.Kb.Page.{Page}

pub record Group : Type 0 where
  pub name : String
  pub items : List Page

-- `groups.filter(…)[0]` and the push on its items; a group that is not there is made at the end.
unfoldable pub file_page : Page → List Group → List Group
file_page p [] = record { name = p.group; items = p ∷ [] } ∷ []
file_page p (g ∷ gs) =
    if str_eq g.name p.group
    then record g { items = g.items ++ p ∷ [] } ∷ gs
    else g ∷ file_page p gs

-- The loop over the pages; a hidden page is passed over.
unfoldable pub group_pages : List Page → List Group → List Group
unfolding file_page
group_pages [] gs = gs
group_pages (p ∷ ps) gs = group_pages ps (if p.hidden then gs else file_page p gs)

unfoldable pub groups : List Page → List Group
unfolding group_pages
groups ps = group_pages ps []
