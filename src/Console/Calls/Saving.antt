-- ===== src/Console/Calls/Saving.antt =====
-- The button `#fe-save` of src/certadillo/web/static/console.js: the rules of the editor, read and sent.
use certadillo.Prelude.{ℕ, String, List, [], Option}
use certadillo.Prelude.Int.{ℤ}
use certadillo.Markup.{Text}
use certadillo.Console.Rules.{Rule, Row, Result, ok, ◌>>=◌, read_rules}
use certadillo.Console.Calls.{Action, save_folder, make_folder}

-- What the editor is about: `EDITING`, by its id, or a new folder with its name and its parent.
pub data Editing : Type 0 where
  folder : (id : Text) → Editing
  new_folder : (name : Text) → (parent : Option ℕ) → Editing

abbrev pub saved : Editing → List (String × Rule) → Action
saved (folder id) settings = save_folder id settings
saved (new_folder name parent) settings = make_folder name parent settings

-- `lower` is `toLowerCase`, and `whole` is `Number` for a text that it takes for a whole number. An
-- error of `readRules` is shown, and nothing is sent.
unfoldable pub save : (Text → Text) → (Text → Option ℤ) → Editing → List Row → Result Action
unfolding read_rules
save lower whole editing rows = do
  settings ← read_rules lower whole rows []
  ok (saved editing settings)
