-- ===== src/Console/Reports/Safety.antt =====
-- The tags of the reports of console.js.
use certadillo.Prelude.{List, Option, [], codes, none, refl, some}
use certadillo.Markup.{Text}
use certadillo.Markup.Tags.{
  Safe, by_text, by_value, done, html-Safe, if-Safe, map_values-Safe, read, read_all, text-Safe,
}
use certadillo.Console.Allowed.{is_allowed}
use certadillo.Console.Cells.Safety.{pill-Safe}
use certadillo.Console.Reports.{
  Ca, CryptoCa, CryptoReport, KeyHealth, ca_row, cas_view, crypto_row, crypto_view, health_mark,
  health_of, offline_mark, problems_mark, recommendation_row,
}

pub offline_mark-Safe : Safe is_allowed offline_mark
unfolding offline_mark read_all read is_allowed
offline_mark-Safe =
    html-Safe is_allowed _ _
      (λ _ h0. by_value _ refl (pill-Safe (codes "offline")) h0 (λ _ h1. done _ refl h1))

pub problems_mark-Safe : (problems : List Text) → Safe is_allowed (problems_mark problems)
unfolding problems_mark read_all read is_allowed
problems_mark-Safe problems = html-Safe is_allowed _ _ (λ _ h0.
    by_value _ refl (pill-Safe (codes "critical")) h0 (λ _ h1. by_text refl (done _ refl h1)))

pub health_mark-Safe : (h : Option KeyHealth) → Safe is_allowed (health_mark h)
health_mark-Safe none = text-Safe is_allowed []
health_mark-Safe (some h) =
    if-Safe is_allowed _ _ _ (pill-Safe (codes "ok")) (problems_mark-Safe h.problems)

pub ca_row-Safe : (keys : List KeyHealth) (c : Ca) → Safe is_allowed (ca_row keys c)
unfolding ca_row read_all read is_allowed
ca_row-Safe keys c = html-Safe is_allowed _ _ (λ _ h0. by_text refl (
    by_text refl (
      by_text refl (
        by_value _ refl (if-Safe is_allowed _ _ _ (offline_mark-Safe) (text-Safe is_allowed _)) h0
          (λ _ h1.
            by_value _ refl (health_mark-Safe (health_of keys none c.name)) h1
              (λ _ h2. by_text refl (by_text refl (done _ refl h2))))))))

pub cas_view-Safe : (keys : List KeyHealth) (cas : List Ca) → Safe is_allowed (cas_view keys cas)
unfolding cas_view read_all read is_allowed
cas_view-Safe keys cas = html-Safe is_allowed _ _ (λ _ h0.
    by_value _ refl (map_values-Safe is_allowed _ _ (ca_row-Safe keys)) h0 (λ _ h1. done _ refl h1))

pub crypto_row-Safe : (c : CryptoCa) → Safe is_allowed (crypto_row c)
unfolding crypto_row read_all read is_allowed
crypto_row-Safe c = html-Safe is_allowed _ _ (λ _ h0. by_text refl (
    by_text refl (
      by_text refl (
        by_text refl (
          by_value _ refl
            (if-Safe is_allowed _ _ _ (pill-Safe (codes "warning")) (pill-Safe (codes "ok"))) h0
            (λ _ h1. done _ refl h1))))))

pub recommendation_row-Safe : (x : Text) → Safe is_allowed (recommendation_row x)
unfolding recommendation_row read_all read is_allowed
recommendation_row-Safe x = html-Safe is_allowed _ _ (λ _ h0. by_text refl (done _ refl h0))

pub crypto_view-Safe : (r : CryptoReport) → Safe is_allowed (crypto_view r)
unfolding crypto_view read_all read is_allowed
crypto_view-Safe r = html-Safe is_allowed _ _ (λ _ h0. by_text refl (
    by_text refl (
      by_text refl (
        by_text refl (
          by_value _ refl (map_values-Safe is_allowed _ _ crypto_row-Safe) h0 (λ _ h1.
            by_value _ refl (map_values-Safe is_allowed _ _ recommendation_row-Safe) h1
              (λ _ h2. done _ refl h2)))))))
