-- ===== src/Scene/Laws/Dom.antt =====
-- The document of a walkthrough of kb-src/scenes-engine.js, and the marks that `goTo` sets in it.
use certadillo.Prelude.{ℕ, suc, ◌≡◌, refl, ap, Bool, true, List, [], ◌∷◌, codes, all, length}
use certadillo.Markup.{Text, part}
use certadillo.Markup.Allowed.{allows}
use certadillo.Markup.Tags.{Safe, by_text, done, html-Safe, read, read_all, at_content}
use certadillo.Scene.Def.{Step, Scene}
use certadillo.Scene.Settle.{marks_from, panel_of}
use certadillo.Scene.Dom.{dom_view, step_buttons}

abbrev element_names : List Text
element_names =
    codes "div"
    ∷ codes "canvas"
    ∷ codes "button"
    ∷ codes "span"
    ∷ codes "label"
    ∷ codes "select"
    ∷ codes "option"
    ∷ codes "h4"
    ∷ codes "p"
    ∷ codes "pre"
    ∷ codes "code"
    ∷ codes "ol"
    ∷ []

abbrev attribute_names : List Text
attribute_names =
    codes "class=\"\""
    ∷ codes "type=\"\""
    ∷ codes "value=\"\""
    ∷ codes "role=\"\""
    ∷ codes "aria-label=\"\""
    ∷ codes "aria-live=\"\""
    ∷ codes "selected"
    ∷ []

unfoldable pub is_stage_tag : Text → Bool
unfolding allows
is_stage_tag t = allows element_names attribute_names t

dom_view-Safe : (d : Scene) → Safe is_stage_tag (dom_view d)
unfolding dom_view read_all read is_stage_tag
dom_view-Safe d = html-Safe is_stage_tag _ _ (λ _ h0. by_text refl (done _ refl h0))

length-step_buttons :
    (i j index : ℕ) (ss : List Step) → length (step_buttons i ss) ≡ length (marks_from j index ss)
unfolding step_buttons marks_from
length-step_buttons i j index [] = refl
length-step_buttons i j index (s ∷ ss) = ap suc (length-step_buttons (suc i) (suc j) index ss)

-- The document of a walkthrough, whatever its title, is read as tags of the stage alone, with no
-- attribute that starts a script or loads something, and ends outside of a tag; and `goTo` has a mark
-- for each button of the list of steps, whatever the step.
pub dom_view-part :
    (d : Scene) (index : ℕ) (s : Step)
    → (tags : List Text) × (read_all (at_content []) (part (dom_view d)) ≡ at_content tags)
      × (all is_stage_tag tags ≡ true)
      × (length (step_buttons 0 d.steps) ≡ length ((panel_of d index s).marks))
unfolding Safe panel_of
dom_view-part d index s =
    let (tags, fine, reads) = dom_view-Safe d [] refl in
    (tags, reads, fine, length-step_buttons 0 0 index d.steps)
