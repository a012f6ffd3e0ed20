-- ===== src/Console/Overview/Safety.antt =====
-- The tags of the overview of console.js.
use certadillo.Prelude.{List, refl}
use certadillo.Prelude.Int.{ℤ}
use certadillo.Markup.{Text}
use certadillo.Markup.Tags.{
  Safe, by_text, by_value, done, html-Safe, if-Safe, map_values-Safe, read, read_all,
}
use certadillo.Console.Allowed.{is_allowed}
use certadillo.Console.Cells.Safety.{pill-Safe}
use certadillo.Console.Inventory.{Cert}
use certadillo.Console.Overview.{
  Alert, Kpi, Summary, alert_row, alerts_view, expiring_row, expiring_view, kpi_view, kpis_view,
}

pub kpi_view-Safe : (k : Kpi) → Safe is_allowed (kpi_view k)
unfolding kpi_view read_all read is_allowed
kpi_view-Safe k =
    html-Safe is_allowed _ _ (λ _ h0. by_text refl (by_text refl (by_text refl (done _ refl h0))))

pub kpis_view-Safe : (digits : ℤ → Text) (s : Summary) → Safe is_allowed (kpis_view digits s)
unfolding kpis_view read_all read is_allowed
kpis_view-Safe digits s = html-Safe is_allowed _ _ (λ _ h0.
    by_value _ refl (map_values-Safe is_allowed _ _ kpi_view-Safe) h0 (λ _ h1. done _ refl h1))

pub alert_row-Safe : (x : Alert) → Safe is_allowed (alert_row x)
unfolding alert_row read_all read is_allowed
alert_row-Safe x = html-Safe is_allowed _ _ (λ _ h0.
    by_value _ refl (pill-Safe x.severity) h0
      (λ _ h1. by_text refl (by_text refl (by_text refl (done _ refl h1)))))

pub alerts_view-Safe : (alerts : List Alert) → Safe is_allowed (alerts_view alerts)
unfolding alerts_view read_all read is_allowed
alerts_view-Safe alerts =
    if-Safe is_allowed _ _ _
      (html-Safe is_allowed _ _ (λ _ h0.
        by_value _ refl (map_values-Safe is_allowed _ _ alert_row-Safe) h0
          (λ _ h1. done _ refl h1)))
      (html-Safe is_allowed _ _ (λ _ h0. done _ refl h0))

pub expiring_row-Safe : (digits : ℤ → Text) (x : Cert) → Safe is_allowed (expiring_row digits x)
unfolding expiring_row read_all read is_allowed
expiring_row-Safe digits x =
    html-Safe is_allowed _ _ (λ _ h0. by_text refl (by_text refl (by_text refl (done _ refl h0))))

pub expiring_view-Safe :
    (digits : ℤ → Text) (rows : List Cert) → Safe is_allowed (expiring_view digits rows)
unfolding expiring_view read_all read is_allowed
expiring_view-Safe digits rows =
    if-Safe is_allowed _ _ _
      (html-Safe is_allowed _ _ (λ _ h0.
        by_value _ refl (map_values-Safe is_allowed _ _ (expiring_row-Safe digits)) h0
          (λ _ h1. done _ refl h1)))
      (html-Safe is_allowed _ _ (λ _ h0. done _ refl h0))
