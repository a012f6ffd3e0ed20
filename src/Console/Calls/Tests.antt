-- ===== src/Console/Calls/Tests.antt =====
-- Small inputs for the calls of src/certadillo/web/static/console.js.
use certadillo.Prelude.{◌≡◌, refl, Bool, false, [], ◌∷◌, none, some, codes, ◌≢◌, ◌≤◌, length}
use certadillo.Words.{trim, join}
use certadillo.Markup.{Text}
use certadillo.Console.Encode.{encode_component}
use certadillo.Console.Encode.Units.{WellFormed, blank, unit}
use certadillo.Console.Requests.{with_object, not_object}
use certadillo.Console.Calls.{revoke, make_target, call_of}
use certadillo.Console.Replies.{Body, fields, message_of, toast}
use certadillo.Console.Replies.Messages.{toast-message_of}
use certadillo.Console.Calls.Endpoints.{endpoint}
use certadillo.Console.Calls.Reached.{Reaches, call_of-Reaches}

-- An id that would leave its segment if it were not encoded.
abbrev odd_id : Text
odd_id = codes "a/b"

odd_id-WellFormed : WellFormed odd_id
odd_id-WellFormed = unit refl refl (unit refl refl (unit refl refl blank))

slash_encoded : encode_component odd_id ≡ some (codes "a%2Fb")
unfolding encode_component
slash_encoded = refl

-- U+00E9, and U+1F600 as its two halves.
accent_encoded : encode_component (0xE9 ∷ []) ≡ some (codes "%C3%A9")
unfolding encode_component
accent_encoded = refl

pair_encoded : encode_component (0xD83D ∷ 0xDE00 ∷ []) ≡ some (codes "%F0%9F%98%80")
unfolding encode_component
pair_encoded = refl

half_refused : encode_component (0xD83D ∷ []) ≡ none
unfolding encode_component
half_refused = refl

abbrev no_object : Text → Bool
no_object t = false

call_of-Reaches_example :
    Reaches
      (endpoint (revoke odd_id (codes "superseded") []))
      (call_of no_object (revoke odd_id (codes "superseded") []))
call_of-Reaches_example =
    call_of-Reaches no_object (revoke odd_id (codes "superseded") []) odd_id-WellFormed

list_refused :
    call_of no_object (make_target (codes "web") (codes "ssh") 1 (codes "[]") [])
    ≡ not_object "Configuration"
unfolding call_of with_object trim
list_refused = refl

abbrev refusal : Body
refusal = fields (some (record { rule = codes "sans"; message = codes "not allowed" } ∷ [])) [] []

toast-message_of_example :
    (m : Text) × (message_of (codes "{...}") refusal ≡ some m)
    × (toast m ≢ [])
    × (length (toast m) ≤ 120)
toast-message_of_example = toast-message_of (codes "{...}") refusal (λ e. cc) (λ e. cc) (λ e. cc)

refusal_told : message_of (codes "{...}") refusal ≡ some (codes "sans: not allowed")
unfolding message_of join
refusal_told = refl
