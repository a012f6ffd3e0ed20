-- ===== src/Console/Encode.antt =====
-- `encodeURIComponent`, a function of the language, as src/certadillo/web/static/console.js uses it for what stands
-- in an address. A text is the list of its UTF-16 units.
pub mod Units
use certadillo.Prelude.{
  ℕ, ◌+◌, ◌-◌, ◌*◌, ◌/◌, ◌%◌, Bool, true, false, ◌&&◌, ◌||◌, List, [], ◌∷◌, ◌++◌, Option, none,
  some, leb, ltb, ◌==◌, if◌then◌else◌,
}
use certadillo.Markup.{Text}

abbrev between : ℕ → ℕ → ℕ → Bool
between lo hi c = leb lo c && leb c hi

-- Letters, digits and - _ . ! ~ * ' ( ) stay.
unfoldable pub is_unreserved : ℕ → Bool
is_unreserved c =
    between 97 122 c
    || between 65 90 c
    || between 48 57 c
    || c == b'-'
    || c == b'_'
    || c == b'.'
    || c == b'!'
    || c == b'~'
    || c == b'*'
    || c == b'\''
    || c == b'('
    || c == b')'

abbrev pub hex : ℕ → ℕ
hex n = if ltb n 10 then 48 + n else 55 + n

-- A byte, as % and two digits.
unfoldable pub percent_byte : ℕ → Text
percent_byte b = b'%' ∷ hex (b / 16 % 16) ∷ hex (b % 16) ∷ []

-- The bytes of a code point in UTF-8.
unfoldable pub utf8 : ℕ → List ℕ
utf8 p =
    if ltb p 128
    then p ∷ []
    else if ltb p 2048
    then (192 + p / 64) ∷ (128 + p % 64) ∷ []
    else if ltb p 65536
    then (224 + p / 4096) ∷ (128 + p / 64 % 64) ∷ (128 + p % 64) ∷ []
    else (240 + p / 262144) ∷ (128 + p / 4096 % 64) ∷ (128 + p / 64 % 64) ∷ (128 + p % 64) ∷ []

unfoldable pub percent_bytes : List ℕ → Text
unfolding percent_byte
percent_bytes [] = []
percent_bytes (b ∷ bs) = percent_byte b ++ percent_bytes bs

abbrev pub is_high : ℕ → Bool
is_high c = leb 0xD800 c && ltb c 0xDC00

abbrev pub is_low : ℕ → Bool
is_low c = leb 0xDC00 c && ltb c 0xE000

abbrev pub pair_of : ℕ → ℕ → ℕ
pair_of h l = 0x10000 + (h - 0xD800) * 1024 + (l - 0xDC00)

abbrev pub prefixed : Text → Option Text → Option Text
prefixed t none = none
prefixed t (some u) = some (t ++ u)

-- The first argument is the first half of a pair that has been read. `none` is the URIError of a half
-- that stands alone.
unfoldable pub encode_after : Option ℕ → Text → Option Text
unfolding percent_bytes utf8 is_unreserved
encode_after none [] = some []
encode_after (some h) [] = none
encode_after (some h) (c ∷ t) =
    let rest = encode_after none t in
    if is_low c then prefixed (percent_bytes (utf8 (pair_of h c))) rest else none
encode_after none (c ∷ t) =
    let rest = encode_after (if is_high c then some c else none) t in
    if is_unreserved c
    then prefixed (c ∷ []) rest
    else if is_high c
    then rest
    else if is_low c
    then none
    else prefixed (percent_bytes (utf8 c)) rest

unfoldable pub encode_component : Text → Option Text
unfolding encode_after
encode_component t = encode_after none t
