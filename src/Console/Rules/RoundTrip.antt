-- ===== src/Console/Rules/RoundTrip.antt =====
-- The editor of console.js: what it shows of rules, and what it reads back.
use certadillo.Prelude.{
  ℕ, String, Bool, true, false, List, [], ◌∷◌, ◌++◌, Option, some, ◌≡◌, ◌≢◌, refl, ◌∙◌, ap, All,
  codes, arith, str_eq, append-nil, append_assoc, All-append,
}
use certadillo.Prelude.Int.{ℤ}
use certadillo.Markup.{Text}
use certadillo.Words.{is_space, trim, join, IsWord, words_by-join}
use certadillo.Words.Trimming.{trim-join}
use certadillo.Console.Rules.{
  list_kind, int_kind, bool_kind, text_kind, kind_of, RuleValue, list_value, int_value, bool_value,
  text_value, Rule, ok, is_separator, read_kind, read_row, put_rule, read_rules, draw_value,
  draw_rules, is_break, field_of, is_setting,
}

-- No rule of `out` has a key of `rules`, and those differ.
abbrev pub Fresh : List (String × Rule) → List (String × Rule) → Type 0
Fresh out [] = Unit
Fresh out ((key, rule) ∷ rules) =
    All (λ e. str_eq e.0 key ≡ false) out × Fresh (out ++ (key, rule) ∷ []) rules

put_rule-fresh :
    (key : String) (rule : Rule) (out : List (String × Rule))
    → All (λ e. str_eq e.0 key ≡ false) out
    → put_rule key rule out ≡ out ++ (key, rule) ∷ []
unfolding put_rule
put_rule-fresh key rule [] h = refl
put_rule-fresh key rule ((k, r) ∷ out) (h, hs) =
    rw h (ap (λ x. (k, r) ∷ x) (put_rule-fresh key rule out hs))

field-eq_self : (t : Text) → All (λ c. is_break c ≡ false) t → field_of t ≡ t
field-eq_self [] h = refl
field-eq_self (c ∷ t) (h, hs) = rw (h, field-eq_self t hs) refl

no_break : (c : ℕ) → is_separator c ≡ false → is_break c ≡ false
unfolding is_separator is_space
no_break c h = ground arith

no_breaks : (t : Text) → All (λ c. is_separator c ≡ false) t → All (λ c. is_break c ≡ false) t
no_breaks [] h = tt
no_breaks (c ∷ t) (h, hs) = (no_break c h, no_breaks t hs)

join_no_breaks :
    (ws : List Text)
    → All (IsWord is_separator) ws
    → All (λ c. is_break c ≡ false) (join (codes ", ") ws)
unfolding join
join_no_breaks [] h = tt
join_no_breaks (w ∷ []) (h, hs) = no_breaks w h.1
join_no_breaks (w ∷ v ∷ ws) (h, hs) =
    All-append (λ c. is_break c ≡ false) w _ (no_breaks w h.1)
      (refl, (refl, join_no_breaks (v ∷ ws) hs))

field_join :
    (w : Text) (ws : List Text)
    → All (IsWord is_separator) (w ∷ ws)
    → field_of (join (codes ", ") (w ∷ ws)) ≡ join (codes ", ") (w ∷ ws)
field_join w ws h = field-eq_self _ (join_no_breaks (w ∷ ws) h)

space_of_separator : (c : ℕ) → is_separator c ≡ false → is_space c ≡ false
unfolding is_separator
space_of_separator c h = ground arith

module _ (lower : Text → Text) (whole : Text → Option ℤ) (settings : List String)
    (shown : ℤ → Text) where
  -- A value that fits its key and that its field can show: a list with a part, each without spaces
  -- and commas; a number whose text is read as that number; a text without spaces at its ends. No
  -- text has a line break.
  pub data Readable (key : String) : RuleValue → Type 0 where
    list_ok :
        (w : Text) (ws : List Text)
        → kind_of key ≡ list_kind
        → All (IsWord is_separator) (w ∷ ws)
        → Readable key (list_value (w ∷ ws))
    int_ok :
        (n : ℤ)
        → kind_of key ≡ int_kind
        → whole (shown n) ≡ some n
        → trim (shown n) ≡ shown n
        → shown n ≢ []
        → field_of (shown n) ≡ shown n
        → Readable key (int_value n)
    bool_ok : (b : Bool) → kind_of key ≡ bool_kind → Readable key (bool_value b)
    text_ok :
        (t : Text)
        → kind_of key ≡ text_kind
        → trim t ≡ t
        → t ≢ []
        → field_of t ≡ t
        → Readable key (text_value t)

  module _ (lower_true : lower (codes "true") ≡ codes "true")
      (lower_false : lower (codes "false") ≡ codes "false") where
    read_row_lem :
        (key : String) (raw : Text) (locked : Bool) (v : RuleValue)
        → trim raw ≡ raw
        → raw ≢ []
        → read_kind lower whole key (kind_of key) raw ≡ ok v
        → read_row lower whole (record { key = key; raw = raw; locked = locked })
          ≡ ok (record { value = v; locked = locked })
    unfolding read_row
    read_row_lem key [] locked v h ne e = absurd (ne refl)
    read_row_lem key (c ∷ t) locked v h ne e = rw (h, read_row) (rw e refl)

    join_ne :
        (w : Text) (ws : List Text)
        → All (IsWord is_separator) (w ∷ ws)
        → join (codes ", ") (w ∷ ws) ≢ []
    unfolding join
    join_ne [] ws h = absurd (h.0.0 refl)
    join_ne (c ∷ w) [] h = cc
    join_ne (c ∷ w) (v ∷ ws) h = cc

    read_row-draw :
        (key : String) (rule : Rule)
        → Readable key rule.value
        → read_row lower whole (record {
          key = key;
          raw = field_of (draw_value shown rule.value);
          locked = rule.locked;
        })
          ≡ ok rule
    unfolding draw_value join read_kind
    read_row-draw key rule h = by_value rule.value h
      where
        by_value :
            (v : RuleValue)
            → Readable key v
            → read_row lower whole
                (record { key = key; raw = field_of (draw_value shown v); locked = rule.locked })
              ≡ ok (record { value = v; locked = rule.locked })
        by_value (list_value _) (list_ok w ws k a) = rw (field_join w ws a) (
            read_row_lem key _ rule.locked _
              (trim-join is_separator space_of_separator (codes ", ") w ws a) (join_ne w ws a)
              (rw k (
                ap (λ x. ok (list_value x))
                  (words_by-join is_separator b',' (codes " ") (w ∷ ws)
                    (unfold is_separator in refl) (unfold is_separator in (refl, tt)) a))))
        by_value (int_value n) (int_ok _ k e t ne f) = rw f (
            read_row_lem key (shown n) rule.locked (int_value n) t ne
              (rw (k, read_kind) (rw e refl)))
        by_value (bool_value true) (bool_ok _ k) =
            read_row_lem key (codes "true") rule.locked (bool_value true) (unfold trim in refl) (cc)
              (rw (k, read_kind, lower_true) refl)
        by_value (bool_value false) (bool_ok _ k) =
            read_row_lem key (codes "false") rule.locked (bool_value false) (unfold trim in refl)
              (cc) (rw (k, read_kind, lower_false) refl)
        by_value (text_value t) (text_ok _ k e ne f) =
            rw f (read_row_lem key t rule.locked (text_value t) e ne (rw (k, read_kind) refl))

    read_rules-draw :
        (rules out : List (String × Rule))
        → All (λ e. (is_setting e.0 settings ≡ true) × Readable e.0 e.1.value) rules
        → Fresh out rules
        → read_rules lower whole (draw_rules settings shown rules) out ≡ ok (out ++ rules)
    unfolding read_rules draw_rules
    read_rules-draw [] out h f = rw append-nil
    read_rules-draw ((key, rule) ∷ rules) out ((k, h), hs) (f, fs) =
        rw (k, read_row-draw key rule h, put_rule-fresh key rule out f)
          (read_rules-draw rules (out ++ (key, rule) ∷ []) hs fs
            ∙ ap ok (append_assoc out ((key, rule) ∷ []) rules))

    -- The table of a folder's rules, read again as it is shown, gives the rules back, with their
    -- values, locks and order, where their keys differ and are settings, and each value fits its key
    -- and its field. A list needs a part, and none of its parts holds a space or a comma; a text is
    -- not empty, has no space at its ends and no line break; `Number` reads the text of a number as
    -- that number, which has neither either; and lower case leaves "true" and "false" alone.
    pub read-draw_rules :
        (rules : List (String × Rule))
        → All (λ e. (is_setting e.0 settings ≡ true) × Readable e.0 e.1.value) rules
        → Fresh [] rules
        → read_rules lower whole (draw_rules settings shown rules) [] ≡ ok rules
    read-draw_rules rules h f = read_rules-draw rules [] h f
