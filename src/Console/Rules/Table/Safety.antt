-- ===== src/Console/Rules/Table/Safety.antt =====
-- The tags of the rule editor of console.js.
use certadillo.Prelude.{List, String, refl}
use certadillo.Prelude.Int.{ℤ}
use certadillo.Markup.{Text}
use certadillo.Markup.Tags.{
  Safe, by_text, by_value, by_word, done, html-Safe, map_values-Safe, read, read_all,
}
use certadillo.Console.Allowed.{is_allowed}
use certadillo.Console.Rules.{Rule}
use certadillo.Console.Rules.Table.{key_option, rule_row, rules_view}

pub key_option-Safe : (key : String) (k : String) → Safe is_allowed (key_option key k)
unfolding key_option read_all read is_allowed
key_option-Safe key k = html-Safe is_allowed _ _ (λ _ h0.
    by_text refl (by_word _ _ (by_text refl (done _ refl h0)) (by_text refl (done _ refl h0))))

pub rule_row-Safe :
    (settings : List String) (digits : ℤ → Text) (entry : (String × Rule))
    → Safe is_allowed (rule_row settings digits entry)
unfolding rule_row read_all read is_allowed
rule_row-Safe settings digits entry = html-Safe is_allowed _ _ (λ _ h0.
    by_value _ refl (map_values-Safe is_allowed _ _ (key_option-Safe entry.0)) h0
      (λ _ h1. by_text refl (by_word _ _ (done _ refl h1) (done _ refl h1))))

pub rules_view-Safe :
    (settings : List String) (digits : ℤ → Text) (rules : List (String × Rule))
    → Safe is_allowed (rules_view settings digits rules)
unfolding rules_view read_all read is_allowed
rules_view-Safe settings digits rules = html-Safe is_allowed _ _ (λ _ h0.
    by_value _ refl (map_values-Safe is_allowed _ _ (rule_row-Safe settings digits)) h0
      (λ _ h1. done _ refl h1))
