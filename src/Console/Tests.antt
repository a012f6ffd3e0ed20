-- ===== src/Console/Tests.antt =====
-- Small inputs for the forms of src/certadillo/web/static/console.js.
use certadillo.Prelude.{
  ℕ, ◌≡◌, ◌≢◌, ◌≤◌, ◌↔◌, refl, true, false, String, List, [], ◌∷◌, Option, none, some, codes, All,
  In, map, arith, ◌+◌, ◌-◌, inr,
}
use certadillo.Prelude.Int.{ℤ, pos, negsuc}
use certadillo.Markup.{Text}
use certadillo.Words.{trim}
use certadillo.Console.Rules.{
  add_row, Row, err, needs_value, Rule, ok, list_value, int_value, bool_value, kind_of,
  is_separator, read_rules, draw_rules, is_setting,
}
use certadillo.Console.Rules.RoundTrip.{Readable, list_ok, int_ok, bool_ok, read-draw_rules}
use certadillo.Console.Rules.Adding.{Added, add_row_lem}
use certadillo.Console.Rules.Reading.{ReadsAs, read_rules-ReadsAs}
use certadillo.Console.Onboard.{
  App, replied, failed, Wizard, Event, open_tab, loaded, next1, next2, app_made, refresh, answered,
  start, handle, run, credentials_for,
}
use certadillo.Console.Onboard.Steps.{Told, run-start}
use certadillo.Console.Inventory.{
  Cert, Filter, Approval, Request, all_buttons, press, shown_certs, left, days_ago,
}
use certadillo.Console.Inventory.Shown.{Meets, shown_certs_iff}
use certadillo.Console.Session
use certadillo.Console.Session.{
  tabs, among, Me, Session, click_tab, click_connect, ◌>>=◌, opened, begin,
}
use certadillo.Console.Session.Tabs.{run-begin}
use certadillo.Console.Folders.{Folder, Line, tree}
use certadillo.Console.Folders.Tree.{Lies, IsRooted, tree_lem}

-- Numbers as far as 9, and `Number` of them.
abbrev show_digit : ℤ → Text
show_digit (pos n) = (b'0' + n) ∷ []
show_digit (negsuc n) = b'-' ∷ (b'1' + n) ∷ []

abbrev digit : Text → Option ℤ
digit (c ∷ []) = some (pos (c - b'0'))
digit _ = none

abbrev rules : List (String × Rule)
rules =
    (
      "allowed_zones",
      record { value = list_value (codes "dmz" ∷ codes "core" ∷ []); locked = true },
    )
    ∷ ("max_validity_days", record { value = int_value (pos 7); locked = false })
    ∷ ("dual_control", record { value = bool_value true; locked = false })
    ∷ []

abbrev settings : List String
settings = "allowed_zones" ∷ "dual_control" ∷ "max_validity_days" ∷ []

rules-Readable :
    All
      (λ (e : String × Rule).
        (is_setting e.0 settings ≡ true)
        × Readable (λ t. t) digit settings show_digit e.0 e.1.value)
      rules
unfolding kind_of is_separator trim
rules-Readable = (
  (
    refl,
    list_ok (codes "dmz") (codes "core" ∷ []) refl (
      ((λ e. cc), (refl, (refl, (refl, tt)))),
      (((λ e. cc), (refl, (refl, (refl, (refl, tt))))), tt),
    ),
  ),
  ((refl, int_ok (pos 7) refl refl refl (λ e. cc) refl), ((refl, bool_ok true refl), tt)),
)

read-draw_rules_example :
    read_rules (λ t. t) digit (draw_rules settings show_digit rules) [] ≡ ok rules
read-draw_rules_example =
    read-draw_rules (λ t. t) digit settings show_digit refl refl rules rules-Readable
      (tt, ((refl, tt), ((refl, (refl, tt)), tt)))

abbrev typed : List Row
typed =
    record { key = "dual_control"; raw = codes " yes "; locked = true }
    ∷ record { key = "issuer"; raw = codes "  "; locked = false }
    ∷ []

read_rules-ReadsAs_example : ReadsAs (λ t. t) digit typed (read_rules (λ t. t) digit typed [])
read_rules-ReadsAs_example = read_rules-ReadsAs (λ t. t) digit typed

-- The second row is empty.
complaint : read_rules (λ t. t) digit typed [] ≡ err (needs_value "issuer")
unfolding read_rules
complaint = refl

abbrev one_row : List Row
one_row = record { key = "allowed_zones"; raw = codes "dmz"; locked = false } ∷ []

add_row_lem_example :
    Added "allowed_zones"
      ("dual_control" ∷ "max_validity_days" ∷ [])
      one_row
      (add_row settings one_row)
add_row_lem_example =
    add_row_lem "allowed_zones" ("dual_control" ∷ "max_validity_days" ∷ []) one_row
      ((refl, refl), tt)

abbrev pending_app : App
pending_app = record {
  id = 7;
  status = "pending";
  approval_id = some 3;
  created_by = "ana";
  name = codes "web";
}

abbrev active_app : App
active_app = record (pending_app) { status = "active" }

-- An application that needs an approval; "Refresh" is pressed twice.
abbrev visit : List Event
visit =
    open_tab
    ∷ loaded none
    ∷ next1 0
    ∷ next1 2
    ∷ next2
    ∷ app_made (failed "name taken")
    ∷ next2
    ∷ app_made (replied pending_app)
    ∷ answered (replied pending_app)
    ∷ refresh
    ∷ refresh
    ∷ answered (replied active_app)
    ∷ []

run-start_example :
    let w = run visit start in
    (1 ≤ w.step)
    × (w.step ≤ 4)
    × (w.step ≡ 2 → w.team ≢ 0)
    × (w.step ≡ 3 → (a : App) × (w.app ≡ some a) × (a.status ≢ "active"))
    × (w.step ≡ 4 → ((a : App) × (w.app ≡ some a) × (credentials_for w ≡ some a.id)) × Told visit)
run-start_example = run-start visit

visit_ends : (run visit start).step ≡ 4
unfolding run
visit_ends = refl

-- The reply to the other press, made before the approval, arrives last.
abbrev overtaken : Wizard
overtaken = handle (answered (replied pending_app)) (run visit start)

overtaken_ends : (overtaken.step ≡ 4) × (overtaken.app ≡ some pending_app)
unfolding handle run
overtaken_ends = (refl, refl)

abbrev web : Cert
web = record {
  id = "c1";
  common_name = codes "web";
  serial = codes "01";
  location = [];
  sans = [];
  status = "active";
  source = "issued";
  hours_left = negsuc 24;
  days_left = negsuc 1;
  protocol = codes "acme";
  key = codes "ec";
  profile = [];
}

abbrev active : Filter
active = record { status = "active"; source = ""; query = codes "we" }

shown_certs_iff_example :
    In web (shown_certs (λ t. t) active (web ∷ []))
    ↔ (In web (web ∷ []) × Meets (λ t. t) active web)
shown_certs_iff_example = shown_certs_iff (λ t. t) active (web ∷ []) web

-- 25 hours past the end are two days.
past : left web ≡ days_ago 2
unfolding left
past = refl

abbrev asked : String → String → Approval
asked id status = record {
  id = id;
  status = status;
  action = codes "app.create";
  payload = codes "{}";
  requested_by = codes "ana";
  decided_by = [];
}

abbrev approvals : List Approval
approvals = asked "1" "approved" ∷ asked "2" "pending" ∷ []

abbrev rejection : Request
rejection = Request.decide "2" "reject"

-- Each of the two buttons of the approval that is pending.
both_sent : map press (all_buttons approvals) ≡ Request.decide "2" "approve" ∷ rejection ∷ []
unfolding all_buttons press
both_sent = refl

abbrev bank : Folder
bank = record {
  id = 1;
  parent_id = none;
  name = "bank";
  path = codes "bank";
  apps = 0;
  settings = [];
}

abbrev cards : Folder
cards = record {
  id = 2;
  parent_id = some 1;
  name = "cards";
  path = codes "cards";
  apps = 4;
  settings = [];
}

folders_Lie : All (Lies (λ n. n) 2) (cards ∷ bank ∷ [])
folders_Lie = (((λ p e. ground arith), omega arith), (((λ p e. ground arith), omega arith), tt))

tree_lem_example :
    (out : List Line) × (tree 3 (cards ∷ bank ∷ []) ≡ some out)
    × ((f : Folder)
        → IsRooted (cards ∷ bank ∷ []) f
        → (depth : ℕ) × In (record { depth = depth; folder = f }) out)
tree_lem_example = tree_lem (λ n. n) 2 3 (cards ∷ bank ∷ []) folders_Lie (omega arith)

abbrev auditor : Me
auditor = record { name = "ana"; role = "auditor" }

abbrev visits : List Session.Event
visits = click_tab "audit" ∷ click_connect (codes " key ") (replied auditor) ∷ []

run-begin_example :
    (s : Session) × (tab : String) × ((begin (failed "no key") (opened false none (some "policy"))
        >>= Session.run visits)
      ≡ some s)
    × (among tab tabs ≡ true)
    × ((k : String) → In (k, false) s.views ↔ (k ≡ tab))
    × (s.storage_blocked ≡ false → s.stored_tab ≡ some tab)
    × (s.ro ≡ true → s.noadmin ≡ true)
run-begin_example =
    run-begin false none (some "policy") (failed "no key") visits (inr ("policy", refl, refl))
