-- ===== src/Kb/Laws/Routing.antt =====
-- The address of the knowledge base, kb-src/kb-app.js.
use text.Mathlib.TextEquality.{eq_iff}
use certadillo.Prelude.{
  ◌≡◌, ◌≢◌, refl, Bool, true, false, String, List, [], ◌∷◌, none, some, arith, Option-cases, inl,
  inr, get_elem?, is_inherited, All, ◌++◌, Bool-cases, ap, if◌then◌else◌, sym, ◌∙◌, Option,
}
use certadillo.Kb.Page.{Page}
use certadillo.Kb.Route.{
  Shell, Target, page, inherited, not_empty, text_or, wants_anchor, by_slug, page_for, slug_of,
  remember, route,
}

by_slug-slug :
    (ps : List Page) (slug : String) {p : Page} → by_slug ps slug ≡ some p → p.slug ≡ slug
unfolding by_slug
by_slug-slug [] slug e = cc
by_slug-slug (q ∷ ps) slug {p} e = ground (arith, eq_iff q.slug slug, by_slug-slug ps slug {p = p})

-- No page has the slug.
abbrev NoSlug : List Page → String → Type 0
NoSlug ps slug = All (λ (p : Page). p.slug ≢ slug) ps

-- The last page with the slug.
pub record IsLast (ps : List Page) (slug : String) (p : Page) : Type 0 where
  pub before : List Page
  pub after : List Page
  pub split : ps ≡ before ++ (p ∷ after)
  pub named : p.slug ≡ slug
  pub later : NoSlug after slug

-- The page that a slug names is the last one with it. A slug that no page has leads to the first page,
-- unless it is the name of an inherited property, which leads to no page at all.
pub data Leads (ps : List Page) (slug : String) : Target → Type 0 where
  the_last : {p : Page} → IsLast ps slug p → Leads ps slug (page p)
  unknown :
      {p : Page}
      → NoSlug ps slug
      → is_inherited slug ≡ false
      → get_elem? ps 0 ≡ some p
      → Leads ps slug (page p)
  no_page : NoSlug ps slug → is_inherited slug ≡ true → Leads ps slug inherited

-- The slug that an address asks for: its own, or else the one that the session remembers, or else
-- home, as when the session may not be read.
pub data Asks (sh : Shell) : String → String → Type 0 where
  own : {hash : String} → hash ≢ "" → Asks sh hash hash
  remembered :
      {s : String} → sh.storage_blocked ≡ false → sh.kb_last ≡ some s → s ≢ "" → Asks sh "" s
  blocked : sh.storage_blocked ≡ true → Asks sh "" "home"
  fresh : sh.kb_last ≡ none → Asks sh "" "home"
  emptied : sh.kb_last ≡ some "" → Asks sh "" "home"

by_slug-NoSlug : (ps : List Page) (slug : String) → by_slug ps slug ≡ none → NoSlug ps slug
unfolding by_slug
by_slug-NoSlug [] slug e = tt
by_slug-NoSlug (q ∷ ps) slug e = elim (Option-cases (by_slug ps slug)) [
  | inl m ↦ (ground (arith, eq_iff q.slug slug), by_slug-NoSlug ps slug m)
  | inr (p, m) ↦ absurd (ground arith)
]

only_here :
    (ps : List Page) (slug : String) (q : Page) {p : Page}
    → by_slug ps slug ≡ none
    → by_slug (q ∷ ps) slug ≡ some p
    → (q.slug ≡ slug) × (q ≡ p)
unfolding by_slug
only_here ps slug q m e = (ground (arith, eq_iff q.slug slug), ground arith)

by_slug-IsLast :
    (ps : List Page) (slug : String) {p : Page} → by_slug ps slug ≡ some p → IsLast ps slug p
unfolding by_slug
by_slug-IsLast [] slug e = cc
by_slug-IsLast (q ∷ ps) slug {p} e = elim (Option-cases (by_slug ps slug)) [
  | inl m ↦
      let (here, same) : (q.slug ≡ slug) × (q ≡ p) = only_here ps slug q m e in
      record {
        before = [];
        after = ps;
        split = ap (λ x. x ∷ ps) same;
        named = ap (λ (x : Page). x.slug) (sym same) ∙ here;
        later = by_slug-NoSlug ps slug m;
      }
  | inr (r, m) ↦
      let same : by_slug ps slug ≡ some p = m ∙ ground (arith) in
      let l = by_slug-IsLast ps slug {p = p} same in
      record {
        before = q ∷ l.before;
        after = l.after;
        split = ap (λ x. q ∷ x) l.split;
        named = l.named;
        later = l.later;
      }
]

page_for-Leads :
    (ps : List Page) (slug : String)
    → ps ≢ []
    → (t : Target) × (page_for ps slug ≡ some t) × Leads ps slug t
unfolding page_for
page_for-Leads [] slug ne = absurd (ne refl)
page_for-Leads (q ∷ ps) slug ne = elim (Option-cases (by_slug (q ∷ ps) slug)) [
  | inl m ↦ elim (Bool-cases (is_inherited slug)) [
    | inl i ↦ (inherited, simp (m, i) refl, no_page (by_slug-NoSlug (q ∷ ps) slug m) i)
    | inr i ↦ (page q, simp (m, i) refl, unknown (by_slug-NoSlug (q ∷ ps) slug m) i refl)
  ]
  | inr (p, found) ↦ (page p, rw found refl, the_last (by_slug-IsLast (q ∷ ps) slug found))
]

session-Asks :
    (sh : Shell) (o : Option String)
    → sh.kb_last ≡ o
    → sh.storage_blocked ≡ false
    → Asks sh "" (text_or o "home")
session-Asks sh none e b = fresh e
session-Asks sh (some String.[]) e b = emptied e
session-Asks sh (some (String.◌∷◌ c s)) e b = remembered b e (λ h. cc)

empty-Asks :
    (sh : Shell) (b : Bool)
    → sh.storage_blocked ≡ b
    → Asks sh "" (if b then "home" else text_or sh.kb_last "home")
empty-Asks sh true e = blocked e
empty-Asks sh false e = session-Asks sh sh.kb_last refl e

slug_of-Asks : (sh : Shell) (hash : String) → Asks sh hash (slug_of sh hash)
unfolding slug_of
slug_of-Asks sh String.[] = empty-Asks sh sh.storage_blocked refl
slug_of-Asks sh (String.◌∷◌ c s) = own (λ h. cc)

abbrev shown : (String → Bool) → Target → Shell → Shell
shown has_anchor t sh =
    remember (wants_anchor has_anchor sh.pending_anchor) t
      (record sh { current = some t; pending_anchor = none })

route_lem :
    (ps : List Page) (has_anchor : String → Bool) (hash : String) (sh : Shell) {t : Target}
    → page_for ps (slug_of sh hash) ≡ some t
    → route ps has_anchor hash sh ≡ some (shown has_anchor t sh)
unfolding route
route_lem ps has_anchor hash sh e = rw (e, route) refl

-- With at least one page the shell does not throw, and shows what the slug leads to that the address
-- asks for: the last page with that slug, or else the first page, or else, where the slug is the name of
-- a property that objects inherit, no page of the list.
pub route_total :
    (ps : List Page) (has_anchor : String → Bool) (hash : String) (sh : Shell)
    → ps ≢ []
    → (sh' : Shell) × (slug : String) × (t : Target) × (route ps has_anchor hash sh ≡ some sh')
      × Asks sh hash slug
      × Leads ps slug t
      × (sh'.current ≡ some t)
      × (sh'.pending_anchor ≡ none)
route_total ps has_anchor hash sh ne =
    let (t, e, l) = page_for-Leads ps (slug_of sh hash) ne in
    (
      shown has_anchor t sh,
      slug_of sh hash,
      t,
      route_lem ps has_anchor hash sh e,
      slug_of-Asks sh hash,
      l,
      unfold remember in refl,
      unfold remember in refl,
    )

-- The page of an address that names one is shown again by an empty address later in the session: the
-- session remembers it, unless its storage is blocked or a link has asked for an anchor.
pub route-route :
    (ps : List Page) (has_anchor : String → Bool) (hash : String) (p : Page) (sh : Shell)
    → sh.storage_blocked ≡ false
    → sh.pending_anchor ≡ none
    → not_empty hash ≡ true
    → by_slug ps hash ≡ some p
    → (sh' : Shell) × (sh'' : Shell) × (route ps has_anchor hash sh ≡ some sh')
      × (sh'.current ≡ some (page p))
      × (route ps has_anchor "" sh' ≡ some sh'')
      × (sh''.current ≡ some (page p))
route-route ps has_anchor hash p sh kept no_anchor named found =
    let there : page_for ps (slug_of sh hash) ≡ some (page p) =
      unfold page_for slug_of in simp (named, found) refl in
    let again : page_for ps (slug_of (shown has_anchor (page p) sh) "") ≡ some (page p) =
      unfold page_for slug_of remember in
      simp (kept, no_anchor, by_slug-slug ps hash found, named, found) refl in
    (
      shown has_anchor (page p) sh,
      shown has_anchor (page p) (shown has_anchor (page p) sh),
      route_lem ps has_anchor hash sh there,
      unfold remember in refl,
      route_lem ps has_anchor "" (shown has_anchor (page p) sh) again,
      unfold remember in refl,
    )
