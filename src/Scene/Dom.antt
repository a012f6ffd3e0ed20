-- ===== src/Scene/Dom.antt =====
-- The document of a walkthrough: `buildDom` of kb-src/scenes-engine.js. The source adds strings and what
-- `esc` makes of the title, as the `html` tag of Markup does.
use certadillo.Prelude.{ℕ, suc, String, List, [], ◌∷◌, codes}
use certadillo.Markup.{Value, text, html}
use certadillo.Scene.Def.{Step, Scene}

-- What the container is filled with.
unfoldable pub dom_view : Scene → Value
dom_view d =
    html (codes "<div class=\"scene-stage\"><canvas class=\"scene-canvas\" aria-label=\"") (
      (
        text (codes d.title),
        codes
            " 3D walkthrough\"></canvas><div class=\"scene-hint\">Drag to rotate · double-click to reset</div><div class=\"scene-zoom\"><button type=\"button\" data-z=\"in\" aria-label=\"Zoom in\">+</button><button type=\"button\" data-z=\"out\" aria-label=\"Zoom out\">−</button></div></div><div class=\"scene-panel\"><div class=\"scene-controls\" role=\"group\" aria-label=\"Walkthrough controls\"><button type=\"button\" data-a=\"restart\">Restart</button><button type=\"button\" data-a=\"prev\">Back</button><button type=\"button\" data-a=\"play\" class=\"primary\">Play</button><button type=\"button\" data-a=\"next\">Next</button><span class=\"scene-count\" aria-live=\"polite\"></span><label class=\"scene-speed\">Speed <select><option value=\"0.6\">0.6×</option><option value=\"1\" selected>1×</option><option value=\"1.6\">1.6×</option></select></label></div><div class=\"scene-step\"><div class=\"scene-eyebrow\"></div><h4></h4><p></p><pre class=\"scene-payload\"><code></code></pre></div><ol class=\"scene-steps\"></ol></div>",
      )
      ∷ [])

-- A button of the list of steps: its text, and the number that it keeps.
pub record StepButton : Type 0 where
  pub text : String
  pub index : ℕ

unfoldable pub step_buttons : ℕ → List Step → List StepButton
step_buttons i [] = []
step_buttons i (s ∷ ss) = record { text = s.title; index = i } ∷ step_buttons (suc i) ss
