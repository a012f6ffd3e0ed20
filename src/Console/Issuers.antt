-- ===== src/Console/Issuers.antt =====
-- The issuers of src/certadillo/web/static/console.js: `loadIssuers`. The value of an entry of a
-- configuration is the text that it is shown as.
pub mod Safety
use certadillo.Prelude.{
  Bool, List, String, [], codes, filter, if◌then◌else◌, not, str_eq, take, ◌∷◌,
}
use certadillo.Markup.{Text, Value, array, html, text}
use certadillo.Markup.Tags.{map_values, only}
use certadillo.Console.Cells.{has_rows, or_text, pill}
use certadillo.Markup.Allowed.{same_text}

-- A certificate authority of the local issuer.
pub record LocalCa : Type 0 where
  pub name : Text
  pub is_root : Bool
  pub signer : Text
  pub not_after : Text

-- An entry of a configuration or of the credentials: a key and a text.
abbrev pub Entry : Type 0
Entry = String × Text

pub record Issuer : Type 0 where
  pub name : Text
  pub type : String
  pub active : Text
  pub issued : Text
  pub last_issued : Text
  pub profiles : List Text
  pub folders : List Text
  pub cas : List LocalCa
  pub default_issuing_ca : Text
  pub config : List Entry
  pub credentials : List Entry

unfoldable pub entry_row : Entry → Value
entry_row e =
    html (codes "<tr><td class=\"muted\">")
      ((text (codes e.0), codes "</td><td>") ∷ (text e.1, codes "</td></tr>") ∷ [])

-- The entries that `kv` shows.
unfoldable pub shown_entries : List Entry → List Entry
shown_entries config = filter (λ e. not (str_eq e.0 "cas")) config

unfoldable pub rule_mark : Text → Value
rule_mark name = html (codes "<span class=\"rule\">") ((text name, codes "</span> ") ∷ [])

unfoldable pub default_mark : Value
default_mark = html (codes " ") ((pill (codes "default"), codes "") ∷ [])

unfoldable pub local_ca_row : Text → LocalCa → Value
local_ca_row chosen c = html (codes "<tr><td>") (
    (text c.name, codes "")
    ∷ (if same_text c.name chosen then (default_mark) else (text []), codes "</td><td>")
    ∷ (text (if c.is_root then codes "root" else codes "issuing"), codes "</td><td>")
    ∷ (
      if same_text c.signer (codes "offline") then (pill (codes "offline")) else (text c.signer),
      codes "</td><td>",
    )
    ∷ (text (take 10 c.not_after), codes "</td></tr>")
    ∷ [])

unfoldable pub local_table : Issuer → Value
local_table i =
    html (codes "<table><tr><th>CA</th><th>Role</th><th>Key</th><th>Expires</th></tr>")
      ((array (map_values (local_ca_row i.default_issuing_ca) (i.cas)), codes "</table>") ∷ [])

unfoldable pub remote_table : Issuer → Value
remote_table i = html (codes "<table>") (
    (array (map_values entry_row (shown_entries i.config)), codes "")
    ∷ (array (map_values entry_row (i.credentials)), codes "</table>")
    ∷ [])

unfoldable pub none_mark : Value
none_mark = only (codes "<span class=\"muted\">none</span>")

-- The names of a list, each marked, or that there is none.
unfoldable pub marks : List Text → Value
marks names = if has_rows names then array (map_values rule_mark names) else none_mark

unfoldable pub issuer_card : Issuer → Value
issuer_card i = html (codes "<div class=\"issuer\">\n    <h3>") (
    (text i.name, codes " ")
    ∷ (pill (codes i.type), codes "</h3>\n    <div class=\"kpis small\"><div class=\"kpi\"><b>")
    ∷ (text i.active, codes "</b><span>active certificates</span></div><div class=\"kpi\"><b>")
    ∷ (text i.issued, codes "</b><span>issued in total</span></div><div class=\"kpi\"><b>")
    ∷ (
      text (or_text (take 10 i.last_issued) (codes "never")),
      codes
          "</b><span>last issued</span></div></div>\n    <p><span class=\"muted\">Profiles:</span> ",
    )
    ∷ (marks i.profiles, codes "\n    <br><span class=\"muted\">Policy folders:</span> ")
    ∷ (marks i.folders, codes "</p>\n    ")
    ∷ (if str_eq i.type "local" then (local_table i) else (remote_table i), codes "\n  </div>")
    ∷ [])

-- `#issuers`.
unfoldable pub issuers_view : List Issuer → Value
issuers_view rows =
    html (codes "<div class=\"issuers\">")
      ((array (map_values issuer_card (rows)), codes "</div>") ∷ [])
