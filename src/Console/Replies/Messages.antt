-- ===== src/Console/Replies/Messages.antt =====
-- The messages of console.js for replies that are errors.
use certadillo.Prelude.{
  ℕ, zero, suc, ◌≡◌, ◌≢◌, ◌≤◌, refl, List, [], ◌∷◌, ◌++◌, map, length, take, none, some, codes,
  arith,
}
use certadillo.Words.{join}
use certadillo.Markup.{Text}
use certadillo.Console.Cells.{or_text}
use certadillo.Console.Replies.{Violation, Body, plain, nothing, fields, told, message_of, toast}

-- The reply names what it violates, if it says that it violates anything.
abbrev pub Names : Body → Type 0
Names (fields (some vs) message detail) = vs ≢ []
Names _ = Unit

append_ne : (t : Text) (c : ℕ) (u : Text) → t ++ c ∷ u ≢ []
append_ne [] c u e = cc
append_ne (x ∷ t) c u e = cc

join_ne : (v : Violation) (ws : List Violation) → join (codes "\n") (map told (v ∷ ws)) ≢ []
unfolding join
join_ne v [] e = append_ne v.rule b':' (codes " " ++ v.message) e
join_ne v (w ∷ ws) e = append_ne (told v) 10 (join (codes "\n") (map told (w ∷ ws))) e

or_text_ne : (t u : Text) → u ≢ [] → or_text t u ≢ []
or_text_ne [] u h e = h e
or_text_ne (c ∷ t) u h e = cc

message_ne :
    (reply : Text) (b : Body)
    → reply ≢ []
    → b ≢ nothing
    → Names b
    → (m : Text) × (message_of reply b ≡ some m) × (m ≢ [])
unfolding message_of
message_ne reply plain h n k = (reply, refl, h)
message_ne reply nothing h n k = absurd (n refl)
message_ne reply (fields (some []) message detail) h n k = absurd (k refl)
message_ne reply (fields (some (v ∷ vs)) message detail) h n k = (_, refl, join_ne v vs)
message_ne reply (fields none message detail) h n k =
    (_, refl, or_text_ne message _ (or_text_ne detail reply h))

take_ne : (n : ℕ) (t : Text) → t ≢ [] → take (suc n) t ≢ []
take_ne n [] h e = h e
take_ne n (c ∷ t) h e = cc

length-take : (n : ℕ) (t : Text) → length (take n t) ≤ n
length-take zero t = omega arith
length-take (suc n) [] = omega arith
length-take (suc n) (c ∷ t) = omega (arith, length-take n t)

-- A reply that is an error, has a text, is not null, and names what it violates if it says that it
-- violates anything, makes an error with a message, and the page shows it: what `toast` writes is not
-- empty, and has at most 120 units.
pub toast-message_of :
    (reply : Text) (b : Body)
    → reply ≢ []
    → b ≢ nothing
    → Names b
    → (m : Text) × (message_of reply b ≡ some m) × (toast m ≢ []) × (length (toast m) ≤ 120)
unfolding toast
toast-message_of reply b h n k =
    let (m, e, ne) = message_ne reply b h n k in (m, e, take_ne 119 m ne, length-take 120 m)
