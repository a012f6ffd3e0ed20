-- ===== src/Kb/Laws/Tags.antt =====
-- The tags of the pages of kb-src/kb-app.js.
use certadillo.Prelude.{
  ℕ, Bool, true, ◌||◌, List, [], ◌∷◌, Option, none, some, String, ◌≡◌, refl, all, codes, All,
  get_elem?, All-get_elem?, subst,
}
use certadillo.Markup.{Text, Value, safe, part}
use certadillo.Markup.Allowed.{allows}
use certadillo.Markup.Tags.{
  Safe, by_text, by_value, done, html-Safe, if-Safe, map_values-Safe, read, read_all, text-Safe,
  at_content,
}
use certadillo.Kb.Page.{Page}
use certadillo.Kb.Nav.{Group}
use certadillo.Kb.Pager.{prev_from, next_of}
use certadillo.Kb.Search.{Hit, search_pages}
use certadillo.Kb.Markup.{
  scene_tag, nav_link, nav_group, nav_view, page_at, no_link, previous_link, next_link, previous_or,
  next_or, pager_view, scene_middle, plain_middle, middle_of, article_view, page_view, hit_link,
  no_matches, hits_view, results_view, view_or,
}

abbrev element_names : List Text
element_names =
    codes "a"
    ∷ codes "h3"
    ∷ codes "span"
    ∷ codes "small"
    ∷ codes "article"
    ∷ codes "div"
    ∷ codes "i"
    ∷ codes "nav"
    ∷ []

abbrev attribute_names : List Text
attribute_names =
    codes "href=\"\"" ∷ codes "class=\"\"" ∷ codes "style=\"\"" ∷ codes "aria-label=\"\"" ∷ []

-- A tag of the shell's own, or one that the bodies of the pages may hold.
unfoldable pub page_tag : (Text → Bool) → Text → Bool
unfolding allows
page_tag body t = allows element_names attribute_names t || body t

module _ (body : Text → Bool) where
  -- The markup that the build has written for a page, with none but tags that `body` allows.
  pub record BodyOk (p : Page) : Type 0 where
    pub html : Safe (page_tag body) (safe p.html)
    pub pre : Safe (page_tag body) (safe p.pre)
    pub post : Safe (page_tag body) (safe p.post)

  scene_tag-Safe : Safe (page_tag body) scene_tag
  unfolding scene_tag read_all read page_tag
  scene_tag-Safe = html-Safe (page_tag body) _ _ (λ _ h0. done _ refl h0)

  nav_link-Safe : (p : Page) → Safe (page_tag body) (nav_link p)
  unfolding nav_link read_all read page_tag
  nav_link-Safe p = html-Safe (page_tag body) _ _ (λ _ h0. by_text refl (
      by_text refl (
        by_text refl (
          by_value _ refl
            (if-Safe (page_tag body) _ _ _ (scene_tag-Safe) (text-Safe (page_tag body) _)) h0
            (λ _ h1. done _ refl h1)))))

  nav_group-Safe : (g : Group) → Safe (page_tag body) (nav_group g)
  unfolding nav_group read_all read page_tag
  nav_group-Safe g = html-Safe (page_tag body) _ _ (λ _ h0. by_text refl (
      by_value _ refl (map_values-Safe (page_tag body) _ _ nav_link-Safe) h0
        (λ _ h1. done _ refl h1)))

  nav_view-Safe : (ps : List Page) → Safe (page_tag body) (nav_view ps)
  unfolding nav_view read_all read page_tag
  nav_view-Safe ps = html-Safe (page_tag body) _ _ (λ _ h0.
      by_value _ refl (map_values-Safe (page_tag body) _ _ nav_group-Safe) h0
        (λ _ h1. done _ refl h1))

  no_link-Safe : Safe (page_tag body) no_link
  unfolding no_link read_all read page_tag
  no_link-Safe = html-Safe (page_tag body) _ _ (λ _ h0. done _ refl h0)

  previous_link-Safe : (p : Page) → Safe (page_tag body) (previous_link p)
  unfolding previous_link read_all read page_tag
  previous_link-Safe p =
      html-Safe (page_tag body) _ _ (λ _ h0. by_text refl (by_text refl (done _ refl h0)))

  next_link-Safe : (p : Page) → Safe (page_tag body) (next_link p)
  unfolding next_link read_all read page_tag
  next_link-Safe p =
      html-Safe (page_tag body) _ _ (λ _ h0. by_text refl (by_text refl (done _ refl h0)))

  previous_or-Safe : (o : Option Page) → Safe (page_tag body) (previous_or o)
  previous_or-Safe none = no_link-Safe
  previous_or-Safe (some p) = previous_link-Safe p

  next_or-Safe : (o : Option Page) → Safe (page_tag body) (next_or o)
  next_or-Safe none = no_link-Safe
  next_or-Safe (some p) = next_link-Safe p

  pager_view-Safe : (ps : List Page) (i : ℕ) → Safe (page_tag body) (pager_view ps i)
  unfolding pager_view read_all read page_tag
  pager_view-Safe ps i = html-Safe (page_tag body) _ _ (λ _ h0.
      by_value _ refl (previous_or-Safe (page_at ps (prev_from ps i))) h0 (λ _ h1.
        by_value _ refl (next_or-Safe (page_at ps (next_of ps i))) h1 (λ _ h2. done _ refl h2)))

  scene_middle-Safe :
      (p : Page) (scene : String) (b : BodyOk p) → Safe (page_tag body) (scene_middle p scene)
  unfolding scene_middle read_all read page_tag
  scene_middle-Safe p scene b = html-Safe (page_tag body) _ _ (λ _ h0. by_text refl (
      by_value _ refl (b.pre) h0
        (λ _ h1. by_text refl (by_value _ refl (b.post) h1 (λ _ h2. done _ refl h2)))))

  plain_middle-Safe : (p : Page) (b : BodyOk p) → Safe (page_tag body) (plain_middle p)
  unfolding plain_middle read_all read page_tag
  plain_middle-Safe p b =
      html-Safe (page_tag body) _ _
        (λ _ h0. by_text refl (by_value _ refl (b.html) h0 (λ _ h1. done _ refl h1)))

  middle_of-Safe : (p : Page) (o : Option String) → BodyOk p → Safe (page_tag body) (middle_of p o)
  middle_of-Safe p none b = plain_middle-Safe p b
  middle_of-Safe p (some scene) b =
      if-Safe (page_tag body) _ _ _ (plain_middle-Safe p b) (scene_middle-Safe p scene b)

  article_view-Safe :
      (ps : List Page) (i : ℕ) (p : Page) (b : BodyOk p)
      → Safe (page_tag body) (article_view ps i p)
  unfolding article_view read_all read page_tag
  article_view-Safe ps i p b = html-Safe (page_tag body) _ _ (λ _ h0.
      by_value _ refl (middle_of-Safe p p.scene b) h0
        (λ _ h1. by_value _ refl (pager_view-Safe ps i) h1 (λ _ h2. done _ refl h2)))

  hit_link-Safe : (words : List Text) (h : Hit) → Safe (page_tag body) (hit_link words h)
  unfolding hit_link read_all read page_tag
  hit_link-Safe words h =
      html-Safe (page_tag body) _ _
        (λ _ h0. by_text refl (by_text refl (by_text refl (done _ refl h0))))

  no_matches-Safe : Safe (page_tag body) no_matches
  unfolding read_all read page_tag
  no_matches-Safe = html-Safe (page_tag body) _ _ (λ _ h. done _ refl h)

  hits_view-Safe : (words : List Text) (hs : List Hit) → Safe (page_tag body) (hits_view words hs)
  unfolding hits_view
  hits_view-Safe words hs =
      if-Safe (page_tag body) _ _ _ (map_values-Safe (page_tag body) _ _ (hit_link-Safe words))
        no_matches-Safe

  page_view-Safe :
      (ps : List Page) (i : ℕ) (p : Page) → BodyOk p → Safe (page_tag body) (page_view ps i p)
  unfolding page_view
  page_view-Safe ps i p b = if-Safe (page_tag body) _ _ _ b.html (article_view-Safe ps i p b)

-- What `setHTML` writes: the navigation, a page of the list, or the results of a query.
pub data Written (ps : List Page) : Value → Type 0 where
  the_nav : Written ps (nav_view ps)
  the_page : (i : ℕ) (p : Page) → get_elem? ps i ≡ some p → Written ps (page_view ps i p)
  the_results :
      (lower : Text → Text) (q : Text) {v : Value} → results_view lower ps q ≡ some v → Written ps v

some_inj : {A : Type 0} {a b : A} → some a ≡ some b → a ≡ b
some_inj e = cc

module _ (body : Text → Bool) where
  view_or-Safe :
      (words : List Text) (o : Option (List Hit)) (v : Value)
      → view_or words o ≡ some v
      → Safe (page_tag body) v
  view_or-Safe words none v e = cc
  view_or-Safe words (some hs) v e =
      subst (Safe (page_tag body)) (some_inj e) (hits_view-Safe body words hs)

  Written-Safe :
      (ps : List Page) → All (BodyOk body) ps → {v : Value} → Written ps v → Safe (page_tag body) v
  unfolding results_view
  Written-Safe ps ok the_nav = nav_view-Safe body ps
  Written-Safe ps ok (the_page i p e) =
      page_view-Safe body ps i p (All-get_elem? (BodyOk body) ps i ok e)
  Written-Safe ps ok {v} (the_results lower q e) = view_or-Safe _ (search_pages lower ps q) v e

  -- If the build writes the pages' own markup with tags that `body` allows, all that the shell writes
  -- is read by a browser as such tags, or links, headings, spans and blocks of the shell's own with no
  -- attribute but an address, a class, a style, a label or data; and it ends outside of a tag. No title,
  -- slug, group or query adds anything.
  pub Written-part :
      (ps : List Page)
      → All (BodyOk body) ps
      → {v : Value} → Written ps v
      → (tags : List Text) × (read_all (at_content []) (part v) ≡ at_content tags)
        × (all (page_tag body) tags ≡ true)
  unfolding Safe
  Written-part ps ok w =
      let (tags, fine, reads) = Written-Safe ps ok w [] refl in (tags, reads, fine)
