-- ===== src/Markup/Lexer.antt =====
-- How a browser reads markup, as far as the templates of console.js use it: text, tags, and values
-- of attributes in quotes. It knows nothing of the escaping.
use certadillo.Prelude.{ℕ, List, [], ◌∷◌, ◌++◌, ◌≡◌, refl, ◌==◌, if◌then◌else◌}

pub data State : Type 0 where
  content tag quoted apostrophed : State

unfoldable pub lex : State → ℕ → State
lex content c = if c == b'<' then tag else content
lex tag c =
    if c == b'>'
    then content
    else if c == b'"'
    then quoted
    else if c == b'\''
    then apostrophed
    else tag
lex quoted c = if c == b'"' then tag else quoted
lex apostrophed c = if c == b'\'' then tag else apostrophed

unfoldable pub lex_all : State → List ℕ → State
unfolding lex
lex_all s [] = s
lex_all s (c ∷ t) = lex_all (lex s c) t

pub lex_all-append : (s : State) (t u : List ℕ) → lex_all s (t ++ u) ≡ lex_all (lex_all s t) u
unfolding lex_all
lex_all-append s [] u = refl
lex_all-append s (c ∷ t) u = lex_all-append (lex s c) t u
