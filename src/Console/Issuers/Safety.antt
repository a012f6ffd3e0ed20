-- ===== src/Console/Issuers/Safety.antt =====
-- The tags of the issuers of console.js.
use certadillo.Prelude.{List, codes, refl}
use certadillo.Markup.{Text}
use certadillo.Markup.Tags.{
  Safe, by_text, by_value, done, html-Safe, if-Safe, map_values-Safe, read, read_all, text-Safe,
}
use certadillo.Console.Allowed.{is_allowed}
use certadillo.Console.Cells.Safety.{pill-Safe}
use certadillo.Console.Issuers.{
  Entry, Issuer, LocalCa, default_mark, entry_row, issuer_card, issuers_view, local_ca_row,
  local_table, marks, none_mark, remote_table, rule_mark,
}

pub entry_row-Safe : (e : Entry) → Safe is_allowed (entry_row e)
unfolding entry_row read_all read is_allowed
entry_row-Safe e = html-Safe is_allowed _ _ (λ _ h0. by_text refl (by_text refl (done _ refl h0)))

pub rule_mark-Safe : (name : Text) → Safe is_allowed (rule_mark name)
unfolding rule_mark read_all read is_allowed
rule_mark-Safe name = html-Safe is_allowed _ _ (λ _ h0. by_text refl (done _ refl h0))

pub default_mark-Safe : Safe is_allowed default_mark
unfolding default_mark read_all read is_allowed
default_mark-Safe =
    html-Safe is_allowed _ _
      (λ _ h0. by_value _ refl (pill-Safe (codes "default")) h0 (λ _ h1. done _ refl h1))

pub local_ca_row-Safe : (chosen : Text) (c : LocalCa) → Safe is_allowed (local_ca_row chosen c)
unfolding local_ca_row read_all read is_allowed
local_ca_row-Safe chosen c = html-Safe is_allowed _ _ (λ _ h0. by_text refl (
    by_value _ refl (if-Safe is_allowed _ _ _ (default_mark-Safe) (text-Safe is_allowed _)) h0
      (λ _ h1. by_text refl (
        by_value _ refl
          (if-Safe is_allowed _ _ _ (pill-Safe (codes "offline")) (text-Safe is_allowed _)) h1
          (λ _ h2. by_text refl (done _ refl h2))))))

pub local_table-Safe : (i : Issuer) → Safe is_allowed (local_table i)
unfolding local_table read_all read is_allowed
local_table-Safe i = html-Safe is_allowed _ _ (λ _ h0.
    by_value _ refl (map_values-Safe is_allowed _ _ (local_ca_row-Safe i.default_issuing_ca)) h0
      (λ _ h1. done _ refl h1))

pub remote_table-Safe : (i : Issuer) → Safe is_allowed (remote_table i)
unfolding remote_table read_all read is_allowed
remote_table-Safe i = html-Safe is_allowed _ _ (λ _ h0.
    by_value _ refl (map_values-Safe is_allowed _ _ entry_row-Safe) h0 (λ _ h1.
      by_value _ refl (map_values-Safe is_allowed _ _ entry_row-Safe) h1 (λ _ h2. done _ refl h2)))

pub none_mark-Safe : Safe is_allowed none_mark
unfolding none_mark read_all read is_allowed
none_mark-Safe = html-Safe is_allowed _ _ (λ _ h0. done _ refl h0)

pub marks-Safe : (names : List Text) → Safe is_allowed (marks names)
unfolding marks
marks-Safe names =
    if-Safe is_allowed _ _ _ (map_values-Safe is_allowed _ _ rule_mark-Safe) none_mark-Safe

pub issuer_card-Safe : (i : Issuer) → Safe is_allowed (issuer_card i)
unfolding issuer_card read_all read is_allowed
issuer_card-Safe i = html-Safe is_allowed _ _ (λ _ h0. by_text refl (
    by_value _ refl (pill-Safe (codes i.type)) h0 (λ _ h1. by_text refl (
      by_text refl (
        by_text refl (
          by_value _ refl (marks-Safe i.profiles) h1 (λ _ h2.
            by_value _ refl (marks-Safe i.folders) h2 (λ _ h3.
              by_value _ refl (if-Safe is_allowed _ _ _ (local_table-Safe i) (remote_table-Safe i))
                h3 (λ _ h4. done _ refl h4)))))))))

pub issuers_view-Safe : (rows : List Issuer) → Safe is_allowed (issuers_view rows)
unfolding issuers_view read_all read is_allowed
issuers_view-Safe rows = html-Safe is_allowed _ _ (λ _ h0.
    by_value _ refl (map_values-Safe is_allowed _ _ issuer_card-Safe) h0 (λ _ h1. done _ refl h1))
