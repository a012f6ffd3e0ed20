-- ===== src/Kb/Tests.antt =====
-- Three pages of a knowledge base in the shell of kb-src/kb-app.js, the second of them hidden.
use certadillo.Prelude.{
  ℕ, ◌≡◌, ◌≤◌, refl, Bool, true, false, String, List, [], ◌∷◌, none, some, codes, filter, length,
  ◌++◌, All, arith, ◌⊎◌, inl, inr, In, all,
}
use certadillo.Markup.{Text, safe, part}
use certadillo.Markup.Tags.{Safe, read_all, at_content}
use certadillo.Kb.Markup.{page_view, document_title, snippet}
use certadillo.Kb.Laws.Tags.{BodyOk, page_tag, the_page, Written-part}
use certadillo.Kb.Box.{empty_box, Event, type_text, press_enter, click_results, run}
use certadillo.Kb.Laws.Answers.{IsAnswering, run-IsAnswering}
use certadillo.Kb.Page.{Page}
use certadillo.Kb.Nav.{groups}
use certadillo.Kb.Pager.{prev_from, next_of}
use certadillo.Kb.Route.{Shell, Target, page, inherited, by_slug, route}
use certadillo.Kb.Search.{score, outranks, hit_of, hits, search_pages}
use certadillo.Kb.Laws.Paging.{PrevOf, NextOf, pager_lem}
use certadillo.Kb.Laws.Grouping.{items_of, belongs, groups_lem}
use certadillo.Kb.Laws.Routing.{Asks, Leads, route_total, route-route}
use certadillo.Kb.Laws.Listing.{In-hits}
use certadillo.Kb.Laws.Ranking.{IsRanked, IsListed, hits_lem}

abbrev page_of : String → String → Bool → String → Page
page_of slug group hidden body = record {
  slug = slug;
  title = slug;
  nav = none;
  group = group;
  hidden = hidden;
  scene = none;
  title_words = codes slug;
  words = codes body;
  html = [];
  pre = [];
  post = [];
}

abbrev home : Page
home = page_of "home" "Start" false "home of the armadillo"

abbrev draft : Page
draft = page_of "draft" "Protocols" true "draft of acme"

abbrev acme : Page
acme = page_of "acme" "Protocols" false "acme: an acme server"

abbrev pages : List Page
pages = home ∷ draft ∷ acme ∷ []

abbrev fresh : Shell
fresh = record { current = none; pending_anchor = none; storage_blocked = false; kb_last = none }

abbrev no_anchors : String → Bool
no_anchors id = false

pager_lem_example : PrevOf pages 2 (prev_from pages 2) × NextOf pages 2 (next_of pages 2)
pager_lem_example = pager_lem pages 2 (omega arith)

over_draft : prev_from pages 2 ≡ some 0
unfolding prev_from
over_draft = refl

groups_lem_example : items_of "Protocols" (groups pages) ≡ filter (belongs "Protocols") pages
groups_lem_example = groups_lem "Protocols" pages

route_total_example :
    (sh' : Shell) × (slug : String) × (t : Target) × (route pages no_anchors "constructor" fresh
      ≡ some sh')
    × Asks fresh "constructor" slug
    × Leads pages slug t
    × (sh'.current ≡ some t)
    × (sh'.pending_anchor ≡ none)
route_total_example = route_total pages no_anchors "constructor" fresh (λ e. cc)

-- The name of an inherited property is no page, and the session remembers "undefined".
inherited_shown :
    route pages no_anchors "constructor" fresh
    ≡ some (record (fresh) { current = some inherited; kb_last = some "undefined" })
unfolding route
inherited_shown = refl

route-route_example :
    (sh : Shell) × (sh' : Shell) × (route pages no_anchors "acme" fresh ≡ some sh)
    × (sh.current ≡ some (page acme))
    × (route pages no_anchors "" sh ≡ some sh')
    × (sh'.current ≡ some (page acme))
unfolding by_slug
route-route_example = route-route pages no_anchors "acme" acme fresh refl refl refl refl

abbrev query : List (List ℕ)
query = codes "acme" ∷ []

hits_lem_example :
    (length (hits pages query) ≤ 8)
    × IsRanked (hits pages query)
    × All (IsListed query) (hits pages query)
hits_lem_example = hits_lem pages query

In-hits_example :
    In (hit_of query acme) (hits pages query)
    ⊎ ((length (hits pages query) ≡ 8)
        × All (λ h. outranks (hit_of query acme) h ≡ false) (hits pages query))
unfolding score
In-hits_example = In-hits pages query acme (inr (inr (inl refl))) refl refl

-- Two hits in the text and one in the title.
found :
    search_pages (λ t. t) pages (codes " acme ")
    ≡ some (record { page = acme; gained = 22; missed = 0 } ∷ [])
unfolding search_pages
found = refl

abbrev no_body : Text → Bool
no_body t = false

empty-Safe : Safe (page_tag no_body) (safe [])
unfolding Safe part read_all
empty-Safe ts h = (ts, h, refl)

pages-BodyOk : All (BodyOk no_body) pages
pages-BodyOk = (
  record { html = empty-Safe; pre = empty-Safe; post = empty-Safe },
  (
    record { html = empty-Safe; pre = empty-Safe; post = empty-Safe },
    (record { html = empty-Safe; pre = empty-Safe; post = empty-Safe }, tt),
  ),
)

Written-part_example :
    (tags : List Text) × (read_all (at_content []) (part (page_view pages 2 acme))
      ≡ at_content tags)
    × (all (page_tag no_body) tags ≡ true)
Written-part_example = Written-part no_body pages pages-BodyOk (the_page 2 acme refl)

title_of_acme : document_title acme ≡ codes "acme · Certadillo knowledge base"
unfolding document_title
title_of_acme = refl

-- Forty units before the first word, and eighty from it on.
snippet_of_acme : snippet (codes "server" ∷ []) (codes "an  acme\nserver") ≡ codes "an acme server"
unfolding snippet
snippet_of_acme = refl

-- A result is clicked, which clears the box and hides the list.
abbrev clicked : List Event
clicked = type_text (codes "acme") ∷ click_results 0 ∷ []

clicked_opens : (run (λ t. t) pages clicked empty_box).opened ≡ "acme" ∷ []
unfolding run
clicked_opens = refl

-- Enter in the empty box follows the first link of the list that is hidden.
stale_enter :
    (run (λ t. t) pages (clicked ++ (press_enter ∷ [])) empty_box).opened ≡ "acme" ∷ "acme" ∷ []
unfolding run
stale_enter = refl

run-IsAnswering_example : IsAnswering (λ t. t) pages (run (λ t. t) pages clicked empty_box)
run-IsAnswering_example = run-IsAnswering (λ t. t) pages clicked
