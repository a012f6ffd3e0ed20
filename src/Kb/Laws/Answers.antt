-- ===== src/Kb/Laws/Answers.antt =====
-- What the search box of kb-src/kb-app.js shows and opens.
use certadillo.Prelude.{
  ℕ, zero, suc, ◌≡◌, refl, String, Bool, true, false, List, [], ◌∷◌, Option, none, some, get_elem?,
  All, In, if◌then◌else◌, inl, inr,
}
use certadillo.Markup.{Text}
use certadillo.Kb.Page.{Page}
use certadillo.Kb.Search.{Hit, search_pages}
use certadillo.Kb.Box.{
  Box, empty_box, links, fill, follow, link_at, enter, Event, type_text, press_escape, press_enter,
  click_results, click_elsewhere, handle, run,
}

get_elem?-In : (xs : List String) (k : ℕ) (s : String) → get_elem? xs k ≡ some s → In s xs
get_elem?-In [] k s e = cc
get_elem?-In (x ∷ xs) zero s e = inl cc
get_elem?-In (x ∷ xs) (suc k) s e = inr (get_elem?-In xs k s e)

module _ (lower : Text → Text) (ps : List Page) where
  -- A list is what the search finds for some query.
  abbrev pub IsFound : Option (List Hit) → Type 0
  IsFound none = Unit
  IsFound (some hs) = (q : Text) × (search_pages lower ps q ≡ some hs)

  -- A link of what the search finds for some query.
  abbrev pub IsOffered : String → Type 0
  IsOffered s = (q : Text) × (hs : List Hit) × (search_pages lower ps q ≡ some hs) × In s (links hs)

  pub record IsAnswering (b : Box) : Type 0 where
    pub shown :
        b.is_hidden ≡ false
        → (hs : List Hit) × (b.listed ≡ some hs) × (search_pages lower ps b.input ≡ some hs)
    pub found : IsFound b.listed
    pub offered : All IsOffered b.opened

  fill-IsAnswering :
      (q : Text) (b : Box) (o : Option (List Hit))
      → search_pages lower ps q ≡ o
      → IsAnswering b
      → IsAnswering (fill o (record b { input = q }))
  fill-IsAnswering q b none e h = record { shown = λ s. cc; found = h.found; offered = h.offered }
  fill-IsAnswering q b (some hs) e h = record {
    shown = λ s. (hs, refl, e);
    found = (q, e);
    offered = h.offered;
  }

  link_at-IsOffered :
      (o : Option (List Hit)) (k : ℕ) (s : String) → link_at o k ≡ some s → IsFound o → IsOffered s
  link_at-IsOffered none k s e f = cc
  link_at-IsOffered (some hs) k s e (q, f) = (q, hs, f, get_elem?-In (links hs) k s e)

  enter-IsAnswering :
      (b : Box) (o : Option String)
      → link_at b.listed 0 ≡ o
      → IsAnswering b
      → IsAnswering (enter o b)
  enter-IsAnswering b none e h = h
  enter-IsAnswering b (some s) e h = record {
    shown = λ s. cc;
    found = h.found;
    offered = (link_at-IsOffered b.listed 0 s e h.found, h.offered);
  }

  hidden-IsAnswering :
      (b : Box) (input : Text)
      → IsAnswering b
      → IsAnswering (record b { is_hidden = true; input = input })
  hidden-IsAnswering b input h = record { shown = λ s. cc; found = h.found; offered = h.offered }

  follow-IsAnswering :
      (b : Box) (k : ℕ) (o : Option String)
      → link_at b.listed k ≡ o
      → IsAnswering b
      → IsAnswering (follow o b)
  follow-IsAnswering b k none e h = h
  follow-IsAnswering b k (some s) e h = record {
    shown = h.shown;
    found = h.found;
    offered = (link_at-IsOffered b.listed k s e h.found, h.offered);
  }

  click-IsAnswering :
      (b : Box) (k : ℕ) (hidden : Bool)
      → IsAnswering b
      → IsAnswering (
          if hidden
          then b
          else follow (link_at b.listed k) (record b { is_hidden = true; input = [] }))
  click-IsAnswering b k true h = h
  click-IsAnswering b k false h =
      follow-IsAnswering (record b { is_hidden = true; input = [] }) k (link_at b.listed k) refl
        (hidden-IsAnswering b [] h)

  handle-IsAnswering : (x : Event) (b : Box) → IsAnswering b → IsAnswering (handle lower ps x b)
  unfolding handle
  handle-IsAnswering (type_text q) b h = fill-IsAnswering q b (search_pages lower ps q) refl h
  handle-IsAnswering press_escape b h = hidden-IsAnswering b b.input h
  handle-IsAnswering press_enter b h = enter-IsAnswering b (link_at b.listed 0) refl h
  handle-IsAnswering (click_results k) b h = click-IsAnswering b k b.is_hidden h
  handle-IsAnswering click_elsewhere b h = hidden-IsAnswering b b.input h

  run_on-IsAnswering : (xs : List Event) (b : Box) → IsAnswering b → IsAnswering (run lower ps xs b)
  unfolding run
  run_on-IsAnswering [] b h = h
  run_on-IsAnswering (x ∷ xs) b h =
      run_on-IsAnswering xs (handle lower ps x b) (handle-IsAnswering x b h)

  -- Whatever is typed, pressed and clicked, a list of results that is shown is what the search finds
  -- for the text in the box, and every address that the box has led to was a link of what the search
  -- finds for some query.
  pub run-IsAnswering : (xs : List Event) → IsAnswering (run lower ps xs empty_box)
  run-IsAnswering xs =
      run_on-IsAnswering xs empty_box (record { shown = λ s. cc; found = tt; offered = tt })
