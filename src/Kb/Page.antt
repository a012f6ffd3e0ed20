-- ===== src/Kb/Page.antt =====
-- What kb-app.js reads of an entry of `window.KB_PAGES`, which the build writes.
use certadillo.Prelude.{ℕ, String, Bool, List, Option}

-- No slug is `__proto__`. `nav` is the short title, where there is one; `words` the text of the body, as `textOf` reads it
-- out of the markup with the browser's parser, in lower case with the title in front.
-- `html`, `pre` and `post` are markup.
pub record Page : Type 0 where
  pub slug : String
  pub title : String
  pub nav : Option String
  pub group : String
  pub hidden : Bool
  pub scene : Option String
  pub title_words : List ℕ
  pub words : List ℕ
  pub html : List ℕ
  pub pre : List ℕ
  pub post : List ℕ
