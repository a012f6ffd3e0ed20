-- ===== src/Kb/Markup.antt =====
-- The markup of kb-src/kb-app.js: the navigation, the page with its pager, and the results of the search.
-- The source adds strings and what `esc` makes of texts; that is what the `html` tag of Markup does, and
-- `safe` stands for markup that the build has written.
use certadillo.Prelude.{
  ℕ, zero, suc, ◌+◌, ◌-◌, Bool, true, false, List, [], ◌∷◌, ◌++◌, take, Option, none, some, String,
  codes, str_eq, get_elem?, if◌then◌else◌,
}
use certadillo.Words.{is_space, strip, trim, words_by}
use certadillo.Markup.{Text, Value, text, safe, array, html}
use certadillo.Markup.Tags.{map_values, only}
use certadillo.Kb.Page.{Page}
use certadillo.Kb.Nav.{Group, groups}
use certadillo.Kb.Pager.{prev_from, next_of}
use certadillo.Kb.Search.{Hit, search_pages}

-- `p.nav || p.title`.
abbrev pub short_title : Page → Text
short_title p = elim p.nav [
  | none ↦ codes p.title
  | some n ↦ if str_eq n "" then codes p.title else codes n
]

-- The scene that a page has; an empty one is none.
abbrev scene_of : Option String → Option String
scene_of none = none
scene_of (some s) = if str_eq s "" then none else some s

abbrev pub has_scene : Page → Bool
has_scene p = elim (scene_of p.scene) [ none ↦ false | some _ ↦ true ]

unfoldable pub scene_tag : Value
scene_tag = only (codes "<span class=\"tag\">3D</span>")

unfoldable pub nav_link : Page → Value
nav_link p = html (codes "<a href=\"#") (
    (text (codes p.slug), codes "\" data-slug=\"")
    ∷ (text (codes p.slug), codes "\">")
    ∷ (text (short_title p), codes "")
    ∷ (if has_scene p then (scene_tag) else (text []), codes "</a>")
    ∷ [])

unfoldable pub nav_group : Group → Value
nav_group g =
    html (codes "<h3>") (
      (text (codes g.name), codes "</h3>") ∷ (array (map_values nav_link (g.items)), codes "") ∷ [])

-- What the navigation is filled with.
unfoldable pub nav_view : List Page → Value
nav_view ps = html (codes "") ((array (map_values nav_group (groups ps)), codes "") ∷ [])

-- The title of the document.
unfoldable pub document_title : Page → Text
document_title p =
    (if str_eq p.slug "home" then [] else codes p.title ++ codes " · ")
    ++ codes "Certadillo knowledge base"

abbrev pub page_at : List Page → Option ℕ → Option Page
page_at ps none = none
page_at ps (some i) = get_elem? ps i

unfoldable pub no_link : Value
no_link = only (codes "<span></span>")

unfoldable pub previous_link : Page → Value
previous_link p = html (codes "<a href=\"#") (
    (text (codes p.slug), codes "\"><small>Previous</small>")
    ∷ (text (short_title p), codes "</a>")
    ∷ [])

unfoldable pub next_link : Page → Value
next_link p = html (codes "<a href=\"#") (
    (text (codes p.slug), codes "\" style=\"text-align:right\"><small>Next</small>")
    ∷ (text (short_title p), codes "</a>")
    ∷ [])

abbrev pub previous_or : Option Page → Value
previous_or none = no_link
previous_or (some p) = previous_link p

abbrev pub next_or : Option Page → Value
next_or none = no_link
next_or (some p) = next_link p

-- The pager of the page at `i`.
unfoldable pub pager_view : List Page → ℕ → Value
pager_view ps i = html (codes "<nav class=\"kb-pager\" aria-label=\"Previous and next\">") (
    (previous_or (page_at ps (prev_from ps i)), codes "")
    ∷ (next_or (page_at ps (next_of ps i)), codes "</nav>")
    ∷ [])

unfoldable pub scene_middle : Page → String → Value
scene_middle p scene = html (codes "<div class=\"kb-prose\"><div class=\"kb-eyebrow\">") (
    (text (codes p.group), codes "</div>")
    ∷ (safe p.pre, codes "</div><div class=\"kb-scene-wrap\"><div class=\"kb-scene\" data-scene=\"")
    ∷ (
      text (codes scene),
      codes
          "\"></div><div class=\"kb-legend\"><span><i style=\"background:#14b8a6\"></i>request</span><span><i style=\"background:#f2b233\"></i>response</span><span><i style=\"background:#8b5cf6\"></i>encrypted or secret</span><span><i style=\"background:#e5484d\"></i>rejected or alert</span><span><i style=\"background:#3b82f6\"></i>local step</span><span><i style=\"background:linear-gradient(#2dd4bf,#f2b233)\"></i>audit chain block</span></div></div><div class=\"kb-prose\">",
    )
    ∷ (safe p.post, codes "</div>")
    ∷ [])

unfoldable pub plain_middle : Page → Value
plain_middle p =
    html (codes "<div class=\"kb-prose\"><div class=\"kb-eyebrow\">")
      ((text (codes p.group), codes "</div>") ∷ (safe p.html, codes "</div>") ∷ [])

abbrev pub middle_of : Page → Option String → Value
middle_of p none = plain_middle p
middle_of p (some scene) = if str_eq scene "" then plain_middle p else scene_middle p scene

unfoldable pub article_view : List Page → ℕ → Page → Value
article_view ps i p =
    html (codes "<article class=\"kb-page\">")
      ((middle_of p p.scene, codes "") ∷ (pager_view ps i, codes "</article>") ∷ [])

-- What `render` shows for the page `p` of the list, which stands at `i`.
unfoldable pub page_view : List Page → ℕ → Page → Value
page_view ps i p = if str_eq p.slug "home" then safe p.html else article_view ps i p

-- `text.indexOf(w)`.
unfoldable pub index_of : Text → Text → Option ℕ
unfolding strip
index_of w [] = elim (strip w []) [ none ↦ none | some _ ↦ some 0 ]
index_of w (c ∷ t) =
    let later = index_of w t in
    elim (strip w (c ∷ t)) [
      | some _ ↦ some 0
      | none ↦ elim later [ none ↦ none | some i ↦ some (suc i) ]
    ]

abbrev pub drop : ℕ → Text → Text
drop zero t = t
drop (suc n) [] = []
drop (suc n) (c ∷ t) = drop n t

-- `text.slice(Math.max(0, i - 40), i + 80)`, where `i` is -1 without an occurrence.
abbrev pub around : Option ℕ → Text → Text
around none t = take 79 t
around (some i) t = take (i + 80 - (i - 40)) (drop (i - 40) t)

-- `replace(/\s+/g, " ")`; the flag says that the unit before was a space.
unfoldable pub squeeze : Bool → Text → Text
unfolding is_space
squeeze spaced [] = []
squeeze spaced (c ∷ t) = elim (is_space c) [
  | false ↦ c ∷ squeeze false t
  | true ↦ elim spaced [ true ↦ squeeze true t | false ↦ 32 ∷ squeeze true t ]
]

-- What a hit shows of its page, around the first of the words.
unfoldable pub snippet : List Text → Text → Text
unfolding index_of squeeze
snippet [] t = squeeze false (around (some 0) t)
snippet (w ∷ _) t = squeeze false (around (index_of w t) t)

unfoldable pub hit_link : List Text → Hit → Value
hit_link words h = html (codes "<a href=\"#") (
    (text (codes h.page.slug), codes "\">")
    ∷ (text (codes h.page.title), codes "<small>…")
    ∷ (text (snippet words h.page.words), codes "…</small></a>")
    ∷ [])

abbrev pub no_matches : Value
no_matches = only (
    codes
      "<a href=\"#home\">No matches<small>Try \"SCEP challenge\", \"revoke\", \"EAB\"</small></a>")

abbrev pub has_hits : List Hit → Bool
has_hits [] = false
has_hits (h ∷ hs) = true

-- The list of results.
unfoldable pub hits_view : List Text → List Hit → Value
hits_view words hs = if has_hits hs then array (map_values (hit_link words) hs) else no_matches

abbrev pub view_or : List Text → Option (List Hit) → Option Value
view_or words none = none
view_or words (some hs) = some (hits_view words hs)

-- What a query shows; `none` hides the list. `lower` is `toLowerCase`.
unfoldable pub results_view : (Text → Text) → List Page → Text → Option Value
results_view lower ps q = view_or (words_by is_space [] (lower (trim q))) (search_pages lower ps q)
