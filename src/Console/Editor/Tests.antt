-- ===== src/Console/Editor/Tests.antt =====
-- A small session of the form of console.js.
use certadillo.Prelude.{
  ◌≡◌, refl, String, true, false, Bool, List, [], ◌∷◌, none, some, codes, In, ◌++◌,
}
use certadillo.Prelude.Int.{ℤ}
use certadillo.Markup.{Text}
use certadillo.Console.Rules.{Rule, bool_value, kind_of}
use certadillo.Console.Folders.{Folder}
use certadillo.Console.Onboard.{replied}
use certadillo.Console.Calls.{call_of, save_folder, make_folder}
use certadillo.Console.Editor.{
  Editor, start, Event, click_edit, click_reset, type_name, click_save, answered, loaded, run,
  find_folder,
}
use certadillo.Console.Rules.RoundTrip.{bool_ok}
use certadillo.Console.Encode.{encode_component}
use certadillo.Console.Encode.Units.{WellFormed, blank, unit}
use certadillo.Console.Requests.{Call, Json, ready}
use certadillo.Console.Calls.Unchanged.{save-draw_rules}
use certadillo.Console.Editor.Known.{folders_in}
use certadillo.Console.Editor.Titles.{IsHonest, run-IsHonest}

abbrev both_rules : List (String × Rule)
both_rules = ("dual_control", record { value = bool_value true; locked = true }) ∷ []

abbrev cards : Folder
cards = record {
  id = 2;
  parent_id = some 1;
  name = "cards";
  path = codes "bank/cards";
  apps = 0;
  settings = both_rules;
}

-- A folder is opened and saved; then the form is reset and saved for a new folder.
abbrev session : List Event
session =
    loaded ("dual_control" ∷ []) (some (cards ∷ []))
    ∷ click_edit 2
    ∷ type_name (codes "other")
    ∷ click_save
    ∷ click_reset
    ∷ type_name (codes "new")
    ∷ click_save
    ∷ answered (replied (some 7))
    ∷ answered (replied none)
    ∷ []

abbrev two : ℤ → Text
two n = codes "2"

abbrev after_session : Editor
after_session = run two (λ t. t) (λ t. none) session start

session_sends :
    after_session.log
    ≡ (codes "New folder", make_folder (codes "new") none [])
      ∷ (codes "Edit rules of bank/cards", save_folder (codes "2") both_rules)
      ∷ []
unfolding run kind_of
session_sends = refl

run-IsHonest_example :
    IsHonest two (λ t. t) (λ t. none) (λ f. In f (folders_in session)) after_session
run-IsHonest_example = run-IsHonest two (λ t. t) (λ t. none) session

abbrev no_object : Text → Bool
no_object t = false

-- The form after the folders are loaded.
abbrev filled : Editor
filled = record (start) { settings = "dual_control" ∷ []; folders = cards ∷ [] }

two-WellFormed : WellFormed (codes "2")
two-WellFormed = unit refl refl blank

save-draw_rules_example :
    (c : Call) × (path_id : Text) × ((run two
        (λ t. t)
        (λ t. none)
        (click_edit 2 ∷ click_save ∷ [])
        filled).log
      ≡ (codes "Edit rules of bank/cards", save_folder (codes "2") both_rules) ∷ [])
    × (call_of no_object (save_folder (codes "2") both_rules) ≡ ready c)
    × (c.method ≡ "PUT")
    × (encode_component (codes "2") ≡ some path_id)
    × (c.path ≡ codes "/api/v1/folders/" ++ (path_id ++ codes "/settings"))
    × (c.body ≡ ("settings", Json.rules both_rules) ∷ [])
unfolding kind_of find_folder
save-draw_rules_example =
    save-draw_rules two (λ t. t) (λ t. none) no_object refl refl filled 2 cards refl two-WellFormed
      (((refl, bool_ok true refl), tt), (tt, tt))
