-- ===== src/Console/SshKeys.antt =====
-- The SSH keys of src/certadillo/web/static/console.js: the address of `loadSshKeys`, and
-- `renderSsh`.
pub mod Safety
use certadillo.Prelude.{
  Bool, List, Option, String, [], codes, filter, if◌then◌else◌, length, none, some, str_eq, take,
  ◌++◌, ◌∷◌,
}
use certadillo.Prelude.Int.{pos, ℤ}
use certadillo.Words.{join}
use certadillo.Markup.{Text, Value, array, html, text}
use certadillo.Markup.Tags.{map_values, only}
use certadillo.Console.Cells.{has_rows, is_set, options, or_text, pill}
use certadillo.Console.Inventory.{includes}

-- An option of a key: true, or the text of its value.
abbrev pub KeyOption : Type 0
KeyOption = Text × Option Text

pub record SshKey : Type 0 where
  pub id : Text
  pub host : Text
  pub kind : Text
  pub account : Text
  pub account_exists : Bool
  pub key_type : Text
  pub bits : Text
  pub fingerprint : Text
  pub comment : Text
  pub options : List KeyOption
  pub file_mtime : Text
  pub owner : Text
  pub status : String

-- What `loadSshKeys` asks the API for.
unfoldable pub keys_address : String → Text
keys_address filter_value =
    codes "/api/v1/ssh-keys"
    ++ (if str_eq filter_value "none"
        then codes "?owner=none"
        else if str_eq filter_value "removed"
        then codes "?status=removed"
        else [])

-- The fields that are searched, joined by spaces.
abbrev pub searched_key : SshKey → Text
searched_key k = join (codes " ") (k.host ∷ k.account ∷ k.comment ∷ k.fingerprint ∷ k.owner ∷ [])

-- The keys that the table lists; `lower` is `toLowerCase`.
unfoldable pub shown_keys : (Text → Text) → Text → List SshKey → List SshKey
shown_keys lower query keys = filter (λ k. includes (lower (searched_key k)) (lower query)) keys

abbrev pub option_text : KeyOption → Text
option_text (n, none) = n
option_text (n, some v) = n ++ codes "=" ++ v

unfoldable pub orphaned_mark : Value
orphaned_mark = html (codes " ") ((pill (codes "orphaned"), codes "") ∷ [])

unfoldable pub comment_note : Text → Value
comment_note comment =
    html (codes "<br><span class=\"muted\">") ((text comment, codes "</span>") ∷ [])

unfoldable pub option_mark : KeyOption → Value
option_mark o = html (codes "<span class=\"rule\">") ((text (option_text o), codes "</span> ") ∷ [])

unfoldable pub no_restrictions : Value
no_restrictions = only (codes "<span class=\"muted\">none</span>")

-- The restrictions of a key, each marked, or that there is none.
unfoldable pub restrictions : List KeyOption → Value
restrictions options =
    if has_rows options then array (map_values option_mark options) else no_restrictions

unfoldable pub unclaimed : Value
unclaimed = only (codes "<span class=\"muted\">unclaimed</span>")

unfoldable pub owner_button : Text → Value
owner_button id =
    html (codes "<button class=\"act\" data-own=\"") ((text id, codes "\">Set owner</button>") ∷ [])

unfoldable pub ssh_key_row : SshKey → Value
ssh_key_row k = html (codes "<tr><td>") (
    (text k.host, codes "<br><span class=\"muted\">")
    ∷ (text k.kind, codes "</span></td><td>")
    ∷ (text (or_text k.account (codes "(host key)")), codes "")
    ∷ (if k.account_exists then (text []) else (orphaned_mark), codes "</td>\n    <td>")
    ∷ (text k.key_type, codes " ")
    ∷ (text k.bits, codes "<br><code>")
    ∷ (text k.fingerprint, codes "</code>")
    ∷ (if is_set k.comment then (comment_note k.comment) else (text []), codes "</td>\n    <td>")
    ∷ (restrictions k.options, codes "</td>\n    <td>")
    ∷ (text (take 10 k.file_mtime), codes "</td><td>")
    ∷ (if is_set k.owner then (text k.owner) else (unclaimed), codes "</td>\n    <td>")
    ∷ (
      if str_eq k.status "present" then (owner_button k.id) else (pill (codes k.status)),
      codes "</td></tr>",
    )
    ∷ [])

-- `#sshkeys`.
unfoldable pub ssh_keys_view : (Text → Text) → (ℤ → Text) → Text → List SshKey → Value
ssh_keys_view lower digits query keys = html (codes "<p class=\"muted\">") (
    (text (digits (pos (length (shown_keys lower query keys)))), codes " of ")
    ∷ (
      text (digits (pos (length keys))),
      codes
          "</p><table><tr><th>Host</th><th>Account</th><th>Key</th><th>Restrictions</th><th>Last change</th><th>Owner</th><th></th></tr>",
    )
    ∷ (array (map_values ssh_key_row (shown_keys lower query keys)), codes "</table>")
    ∷ [])
