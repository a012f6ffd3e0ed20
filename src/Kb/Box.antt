-- ===== src/Kb/Box.antt =====
-- The search box of kb-src/kb-app.js over time: the handlers of `#kb-q`, `#kb-results` and the
-- document that show and hide the list and follow its links.
use certadillo.Prelude.{
  ℕ, String, Bool, true, false, List, [], ◌∷◌, Option, none, some, map, get_elem?, if◌then◌else◌,
}
use certadillo.Markup.{Text}
use certadillo.Kb.Page.{Page}
use certadillo.Kb.Search.{Hit, search_pages}

-- `listed` is what the list was last filled with, which stays when the list is hidden. `opened` are the
-- addresses that the box has led to, the last first.
pub record Box : Type 0 where
  pub input : Text
  pub listed : Option (List Hit)
  pub is_hidden : Bool
  pub opened : List String

-- The page as it is sent.
abbrev pub empty_box : Box
empty_box = record { input = []; listed = none; is_hidden = true; opened = [] }

-- Where the links of a list lead; without a hit there is one.
abbrev pub links : List Hit → List String
links [] = "home" ∷ []
links (h ∷ hs) = h.page.slug ∷ map (λ (k : Hit). k.page.slug) hs

abbrev pub fill : Option (List Hit) → Box → Box
fill none b = record b { is_hidden = true }
fill (some hs) b = record b { listed = some hs; is_hidden = false }

abbrev pub follow : Option String → Box → Box
follow none b = b
follow (some slug) b = record b { opened = slug ∷ b.opened }

abbrev pub link_at : Option (List Hit) → ℕ → Option String
link_at none k = none
link_at (some hs) k = get_elem? (links hs) k

-- The first link of the list, if it was ever filled, hidden or not.
abbrev pub enter : Option String → Box → Box
enter none b = b
enter (some slug) b = record b { opened = slug ∷ b.opened; is_hidden = true }

pub data Event : Type 0 where
  type_text : Text → Event
  press_escape press_enter : Event
  -- a click inside of the list, on the link of that number if there is one
  click_results : ℕ → Event
  -- a click outside of the box and the list
  click_elsewhere : Event

-- A list that is hidden cannot be clicked. `lower` is `toLowerCase`.
unfoldable pub handle : (Text → Text) → List Page → Event → Box → Box
unfolding search_pages
handle lower ps (type_text q) b = fill (search_pages lower ps q) (record b { input = q })
handle lower ps press_escape b = record b { is_hidden = true }
handle lower ps press_enter b = enter (link_at b.listed 0) b
handle lower ps (click_results k) b =
    if b.is_hidden
    then b
    else follow (link_at b.listed k) (record b { is_hidden = true; input = [] })
handle lower ps click_elsewhere b = record b { is_hidden = true }

unfoldable pub run : (Text → Text) → List Page → List Event → Box → Box
unfolding handle
run lower ps [] b = b
run lower ps (x ∷ xs) b = run lower ps xs (handle lower ps x b)
