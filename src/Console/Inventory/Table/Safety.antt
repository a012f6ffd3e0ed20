-- ===== src/Console/Inventory/Table/Safety.antt =====
-- The tags of the inventory and the approvals of console.js.
use certadillo.Prelude.{List, codes, refl}
use certadillo.Prelude.Int.{ℤ}
use certadillo.Markup.{Text}
use certadillo.Markup.Tags.{
  Safe, by_text, by_value, done, html-Safe, if-Safe, map_values-Safe, read, read_all, text-Safe,
}
use certadillo.Console.Allowed.{is_allowed}
use certadillo.Console.Cells.Safety.{pill-Safe}
use certadillo.Console.Inventory.{Approval, Cert, Filter}
use certadillo.Console.Inventory.Table.{
  approval_row, approvals_view, cert_row, decide_buttons, decided_by, inventory_view, revoke_button,
}

pub revoke_button-Safe : (x : Cert) → Safe is_allowed (revoke_button x)
unfolding revoke_button read_all read is_allowed
revoke_button-Safe x = html-Safe is_allowed _ _ (λ _ h0. by_text refl (done _ refl h0))

pub cert_row-Safe : (digits : ℤ → Text) (x : Cert) → Safe is_allowed (cert_row digits x)
unfolding cert_row read_all read is_allowed
cert_row-Safe digits x = html-Safe is_allowed _ _ (λ _ h0. by_text refl (
    by_text refl (
      by_value _ refl (pill-Safe (codes x.status)) h0 (λ _ h1. by_text refl (
        by_text refl (
          by_text refl (
            by_text refl (
              by_text refl (
                by_text refl (
                  by_value _ refl
                    (if-Safe is_allowed _ _ _ (revoke_button-Safe x) (text-Safe is_allowed _)) h1
                    (λ _ h2. done _ refl h2)))))))))))

pub inventory_view-Safe :
    (lower : Text → Text) (digits : ℤ → Text) (f : Filter) (inv : List Cert)
    → Safe is_allowed (inventory_view lower digits f inv)
unfolding inventory_view read_all read is_allowed
inventory_view-Safe lower digits f inv = html-Safe is_allowed _ _ (λ _ h0. by_text refl (
    by_text refl (
      by_value _ refl (map_values-Safe is_allowed _ _ (cert_row-Safe digits)) h0
        (λ _ h1. done _ refl h1))))

pub decided_by-Safe : (name : Text) → Safe is_allowed (decided_by name)
unfolding decided_by read_all read is_allowed
decided_by-Safe name = html-Safe is_allowed _ _ (λ _ h0. by_text refl (done _ refl h0))

pub decide_buttons-Safe : (id : Text) → Safe is_allowed (decide_buttons id)
unfolding decide_buttons read_all read is_allowed
decide_buttons-Safe id =
    html-Safe is_allowed _ _ (λ _ h0. by_text refl (by_text refl (done _ refl h0)))

pub approval_row-Safe : (r : Approval) → Safe is_allowed (approval_row r)
unfolding approval_row read_all read is_allowed
approval_row-Safe r = html-Safe is_allowed _ _ (λ _ h0. by_text refl (
    by_text refl (
      by_text refl (
        by_text refl (
          by_value _ refl (pill-Safe (codes r.status)) h0 (λ _ h1.
            by_value _ refl
              (if-Safe is_allowed _ _ _ (decided_by-Safe r.decided_by) (text-Safe is_allowed _)) h1
              (λ _ h2.
                by_value _ refl
                  (if-Safe is_allowed _ _ _ (decide_buttons-Safe (codes r.id))
                    (text-Safe is_allowed _))
                  h2 (λ _ h3. done _ refl h3))))))))

pub approvals_view-Safe : (rows : List Approval) → Safe is_allowed (approvals_view rows)
unfolding approvals_view read_all read is_allowed
approvals_view-Safe rows =
    if-Safe is_allowed _ _ _
      (html-Safe is_allowed _ _ (λ _ h0.
        by_value _ refl (map_values-Safe is_allowed _ _ approval_row-Safe) h0
          (λ _ h1. done _ refl h1)))
      (html-Safe is_allowed _ _ (λ _ h0. done _ refl h0))
