-- ===== src/Console/Audit/Safety.antt =====
-- The tags of the audit trail of console.js.
use certadillo.Prelude.{List, Option, [], codes, none, refl, some}
use certadillo.Prelude.Int.{ℤ}
use certadillo.Markup.{Text}
use certadillo.Markup.Tags.{
  Safe, by_text, by_value, done, html-Safe, if-Safe, map_values-Safe, read, read_all, text-Safe,
}
use certadillo.Console.Allowed.{is_allowed}
use certadillo.Console.Audit.{
  AuditEvent, Sink, Verified, audit_row, audit_view, key_note, key_or, shipping_view, sink_row,
  sinks_table, verified_view,
}
use certadillo.Console.Cells.Safety.{pill-Safe}

pub sink_row-Safe : (digits : ℤ → Text) (r : Sink) → Safe is_allowed (sink_row digits r)
unfolding sink_row read_all read is_allowed
sink_row-Safe digits r = html-Safe is_allowed _ _ (λ _ h0. by_text refl (
    by_text refl (
      by_text refl (
        by_value _ refl
          (if-Safe is_allowed _ _ _ (pill-Safe (codes "ok")) (pill-Safe (codes "critical"))) h0
          (λ _ h1. by_text refl (by_text refl (done _ refl h1)))))))

pub sinks_table-Safe :
    (digits : ℤ → Text) (ship : List Sink) → Safe is_allowed (sinks_table digits ship)
unfolding sinks_table read_all read is_allowed
sinks_table-Safe digits ship = html-Safe is_allowed _ _ (λ _ h0.
    by_value _ refl (map_values-Safe is_allowed _ _ (sink_row-Safe digits)) h0
      (λ _ h1. done _ refl h1))

pub key_note-Safe : (key_id : Text) → Safe is_allowed (key_note key_id)
unfolding key_note read_all read is_allowed
key_note-Safe key_id = html-Safe is_allowed _ _ (λ _ h0. by_text refl (done _ refl h0))

pub key_or-Safe : (key : Option Text) → Safe is_allowed (key_or key)
key_or-Safe none = text-Safe is_allowed []
key_or-Safe (some key_id) = key_note-Safe key_id

pub shipping_view-Safe :
    (digits : ℤ → Text) (ship : List Sink) (key : Option Text)
    → Safe is_allowed (shipping_view digits ship key)
unfolding shipping_view read_all read is_allowed
shipping_view-Safe digits ship key = html-Safe is_allowed _ _ (λ _ h0.
    by_value _ refl
      (if-Safe is_allowed _ _ _ (sinks_table-Safe digits ship)
        (html-Safe is_allowed _ _ (λ _ h10. done _ refl h10)))
      h0 (λ _ h1. by_value _ refl (key_or-Safe key) h1 (λ _ h2. done _ refl h2)))

pub verified_view-Safe : (v : Verified) → Safe is_allowed (verified_view v)
unfolding verified_view read_all read is_allowed
verified_view-Safe v =
    if-Safe is_allowed _ _ _
      (html-Safe is_allowed _ _ (λ _ h0. by_text refl (by_text refl (done _ refl h0))))
      (html-Safe is_allowed _ _ (λ _ h0. by_text refl (done _ refl h0)))

pub audit_row-Safe : (e : AuditEvent) → Safe is_allowed (audit_row e)
unfolding audit_row read_all read is_allowed
audit_row-Safe e = html-Safe is_allowed _ _ (λ _ h0.
    by_text refl (by_text refl (by_text refl (by_text refl (by_text refl (done _ refl h0))))))

pub audit_view-Safe : (rows : List AuditEvent) → Safe is_allowed (audit_view rows)
unfolding audit_view read_all read is_allowed
audit_view-Safe rows = html-Safe is_allowed _ _ (λ _ h0.
    by_value _ refl (map_values-Safe is_allowed _ _ audit_row-Safe) h0 (λ _ h1. done _ refl h1))
