-- ===== src/Console/Replies.antt =====
-- What src/certadillo/web/static/console.js makes of the replies of the API: the error of `api`,
-- `outcome`, `say` and `toast`.
pub mod Messages
use certadillo.Prelude.{
  ℕ, String, Bool, true, false, List, [], ◌∷◌, ◌++◌, map, take, Option, none, some, codes, ◌==◌,
  if◌then◌else◌,
}
use certadillo.Prelude.Int.{ℤ, pos}
use certadillo.Words.{join}
use certadillo.Markup.{Text}
use certadillo.Console.Cells.{is_set, or_text}

pub record Violation : Type 0 where
  pub rule : Text
  pub message : Text

-- What the text of a reply says. `plain` is a text that is not JSON, or a value without fields; the
-- message and the detail are what `String` makes of them, empty where they are missing. The API sends
-- no empty array there.
pub data Body : Type 0 where
  plain : Body
  nothing : Body
  fields : (violations : Option (List Violation)) → (message detail : Text) → Body

abbrev pub told : Violation → Text
told v = v.rule ++ (codes ": " ++ v.message)

-- The message of the error that `api` throws for a reply that is not ok; `none` is the TypeError of
-- reading a field of null.
unfoldable pub message_of : Text → Body → Option Text
unfolding join
message_of reply plain = some reply
message_of reply nothing = none
message_of reply (fields (some vs) message detail) = some (join (codes "\n") (map told vs))
message_of reply (fields none message detail) = some (or_text message (or_text detail reply))

-- `outcome`: an approval that the reply names is waited for; its number is not 0. `digits` is `String`
-- of a whole number.
unfoldable pub outcome : (ℤ → Text) → Option ℕ → Text → Text
outcome digits none done = done
outcome digits (some id) done =
    if id == 0
    then done
    else codes "Sent: approval #" ++ (digits (pos id) ++ codes " is waiting for an approver.")

-- The line under a form, with its class.
pub record Line : Type 0 where
  pub text : Text
  pub class : String

unfoldable pub say : Text → Bool → Line
say msg good = record { text = msg; class = if good then "okmsg" else "err" }

-- `#who` after `toast`.
unfoldable pub toast : Text → Text
toast msg = take 120 msg
