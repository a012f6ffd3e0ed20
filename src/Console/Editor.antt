-- ===== src/Console/Editor.antt =====
-- The form that edits a policy folder, over time: `editFolder`, `#fe-reset`, `#fe-add`, `#fe-save` and
-- what `loadPolicy` does to it in src/certadillo/web/static/console.js. A reply is an event of
-- its own.
mod Tests
pub mod Known
pub mod Titles
use certadillo.Prelude.{
  ℕ, String, Bool, true, false, List, [], ◌∷◌, ◌++◌, Option, none, some, codes, ◌==◌, if◌then◌else◌,
}
use certadillo.Prelude.Int.{ℤ, pos}
use certadillo.Markup.{Text}
use certadillo.Console.Rules.{
  Rule, Row, RuleError, needs_value, not_whole, Result, ok, err, draw_rules, add_row,
}
use certadillo.Console.Folders.{Folder}
use certadillo.Console.Onboard.{Reply, replied, failed}
use certadillo.Console.Replies.{Line, say, outcome}
use certadillo.Console.Calls.{Action}
use certadillo.Console.Calls.Saving.{Editing, folder, new_folder, save}

-- `SETTINGS`, `FOLDERS`, `EDITING`, the title, the fields of the form, its rows and its line for
-- errors. `log` has what was sent, the last first, each with the title that stood above it.
pub record Editor : Type 0 where
  pub settings : List String
  pub folders : List Folder
  pub editing : Option Folder
  pub title : Text
  pub name : Text
  pub name_disabled : Bool
  pub parent : Option ℕ
  pub parent_disabled : Bool
  pub rows : List Row
  pub line : Line
  pub is_open : Bool
  pub log : List (Text × Action)

abbrev pub new_title : Text
new_title = codes "New folder"

abbrev pub title_of : Folder → Text
title_of f = codes "Edit rules of " ++ f.path

-- The page as it is sent.
abbrev pub start : Editor
start = record {
  settings = [];
  folders = [];
  editing = none;
  title = new_title;
  name = [];
  name_disabled = false;
  parent = none;
  parent_disabled = false;
  rows = [];
  line = record { text = []; class = "err" };
  is_open = false;
  log = [];
}

-- `FOLDERS.find(f => f.id === id)`.
unfoldable pub find_folder : List Folder → ℕ → Option Folder
find_folder [] id = none
find_folder (f ∷ fs) id = let rest = find_folder fs id in if f.id == id then some f else rest

abbrev error_text : RuleError → Text
error_text (needs_value key) = codes key ++ codes " needs a value"
error_text (not_whole key) = codes key ++ codes " must be a whole number"

pub data Event : Type 0 where
  click_edit : ℕ → Event
  click_reset click_add : Event
  -- the user changes the rows, or a field that is not disabled
  change_rows : List Row → Event
  type_name : Text → Event
  choose_parent : Option ℕ → Event
  click_save : Event
  -- a reply to what was saved, which names an approval, or none
  answered : Reply (Option ℕ) → Event
  -- the settings and the folders are loaded; `none` is an error, which leaves the form
  loaded : List String → Option (List Folder) → Event

-- `digits` is `String` of a whole number, `lower` is `toLowerCase`, and `whole` is `Number` for a text
-- that it takes for a whole number.
module _ (digits : ℤ → Text) (lower : Text → Text) (whole : Text → Option ℤ) where
  unfoldable pub edit_folder : Option Folder → Editor → Editor
  unfolding draw_rules
  edit_folder none e = record e {
    editing = none;
    title = new_title;
    name = [];
    name_disabled = false;
    parent_disabled = false;
    rows = draw_rules e.settings digits [];
    line = record { text = []; class = e.line.class };
  }
  edit_folder (some f) e = record e {
    editing = some f;
    title = title_of f;
    name = codes f.name;
    name_disabled = true;
    parent_disabled = true;
    rows = draw_rules e.settings digits f.settings;
    line = record { text = []; class = e.line.class };
    is_open = true;
  }

  -- What `#fe-save` is about.
  abbrev pub subject : Option Folder → Editor → Editing
  subject none e = new_folder e.name e.parent
  subject (some f) e = folder (digits (pos f.id))

  -- The line for the reply to a call that was made.
  abbrev told_line : Reply (Option ℕ) → Line
  told_line (failed m) = record { text = codes m; class = "err" }
  told_line (replied approval) = record {
    text = outcome digits approval (codes "Applied.");
    class = "okmsg";
  }

  -- Up to the call of `api`, whose reply is told later.
  abbrev pub after_save : Result Action → Editor → Editor
  after_save (err x) e = record e { line = record { text = error_text x; class = "err" } }
  after_save (ok a) e = record e {
    line = record { text = []; class = "err" };
    log = (e.title, a) ∷ e.log;
  }

  -- The list of parents is drawn again, so that its first entry is chosen; what is typed for a new
  -- folder is dropped.
  unfoldable pub load_policy : List String → Option (List Folder) → Editor → Editor
  unfolding draw_rules
  load_policy settings none e = record e { settings = settings }
  load_policy settings (some fs) e = record e {
    settings = settings;
    folders = fs;
    parent = none;
    rows = elim e.editing [ none ↦ draw_rules settings digits [] | some f ↦ e.rows ];
  }

  unfoldable pub handle : Event → Editor → Editor
  unfolding edit_folder find_folder add_row save load_policy
  handle (click_edit id) e = edit_folder (find_folder e.folders id) e
  handle click_reset e = edit_folder none e
  handle click_add e = record e { rows = add_row e.settings e.rows }
  handle (change_rows rows) e = record e { rows = rows }
  handle (type_name t) e = if e.name_disabled then e else record e { name = t }
  handle (choose_parent p) e = if e.parent_disabled then e else record e { parent = p }
  handle click_save e = after_save (save lower whole (subject e.editing e) e.rows) e
  handle (answered reply) e = record e { line = told_line reply }
  handle (loaded settings fs) e = load_policy settings fs e

  unfoldable pub run : List Event → Editor → Editor
  unfolding handle
  run [] e = e
  run (x ∷ xs) e = run xs (handle x e)
