-- ===== src/Markup/Tests.antt =====
-- What console.js escapes, on a hostile subject of a scanned certificate.
use certadillo.Prelude.{◌≡◌, refl, [], ◌∷◌, some, codes, none}
use certadillo.Markup.{Text, esc_text, text, array, nil, cons, safe, html, render, Holes}
use certadillo.Markup.Lexer.{content, quoted, lex_all}
use certadillo.Markup.Inert.{lex_all-esc_text, Fits, FitsHoles, strings_of, html-inert}
use certadillo.Markup.Decode.{decode, decode-esc_text}

abbrev hostile : Text
hostile = codes "\"><img src=x onerror=alert(1)>"

lex_all-esc_text_example : lex_all quoted (esc_text hostile) ≡ quoted
lex_all-esc_text_example = lex_all-esc_text quoted hostile (λ e. cc)

decode-esc_text_example : decode (esc_text hostile) none ≡ hostile
decode-esc_text_example = decode-esc_text hostile

-- `html`<option value="${…}">${…}</option>`` with the hostile subject in both places.
abbrev option_start : Text
option_start = codes "<option value=\""

abbrev option_holes : Holes
option_holes =
    (text hostile, codes "\">")
    ∷ (array (cons (text hostile) (cons (safe (codes "<b>ok</b>")) nil)), codes "</option>")
    ∷ []

option_fits : FitsHoles content option_start option_holes
unfolding Fits FitsHoles lex_all
option_fits = ((λ e. cc), (((λ e. cc), (refl, tt)), tt))

html-inert_example :
    (out : Text) × (html option_start option_holes ≡ safe out)
    × (lex_all content out ≡ lex_all content (strings_of option_start option_holes))
html-inert_example = html-inert content option_start option_holes option_fits

small_page :
    render (html (codes "<b>") ((text (codes "a&b"), codes "</b>") ∷ []))
    ≡ some (codes "<b>a&amp;b</b>")
unfolding render html esc_text
small_page = refl
