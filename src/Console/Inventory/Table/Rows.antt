-- ===== src/Console/Inventory/Table/Rows.antt =====
-- The rows and the buttons of the tables of console.js for certificates and approvals.
use certadillo.Prelude.{
  ℕ, ◌+◌, ◌≡◌, refl, subst, Bool, true, false, List, [], ◌∷◌, codes, length, filter, arith,
  if◌then◌else◌,
}
use certadillo.Prelude.Int.{ℤ}
use certadillo.Markup.{Text}
use certadillo.Markup.Allowed.{same_text}
use certadillo.Markup.Tags.{read_all, read, html-IsHtml}
use certadillo.Markup.Counts.{
  count, sum, Adds, done, by_text, by_value, Shows, Adds-Shows, html-Adds, text-Adds, if-Adds,
  map_values-Adds,
}
use certadillo.Console.Cells.{pill}
use certadillo.Console.Inventory.{Cert, Filter, shown_certs, can_revoke}
use certadillo.Console.Inventory.Table.{cert_row, revoke_button, inventory_view}

-- A tag that opens a row, and one that opens a button that revokes or decides.
abbrev pub is_row : Text → Bool
is_row t = same_text t (codes "tr")

abbrev pub is_revoke : Text → Bool
is_revoke t = same_text t (codes "button data-revoke=\"\"")

abbrev revokes : Cert → ℕ
revokes x = if can_revoke x then 1 else 0

abbrev one {ℓ} : {A : Type ℓ} → A → ℕ
one x = 1

pub pill-rows : (s : Text) → Adds is_row (pill s) 0
unfolding pill read_all read count
pill-rows s = html-Adds is_row 0 _ _ (λ ts. by_text refl (by_text refl (done _ refl (omega arith))))

pill-revokes : (s : Text) → Adds is_revoke (pill s) 0
unfolding pill read_all read count
pill-revokes s =
    html-Adds is_revoke 0 _ _ (λ ts. by_text refl (by_text refl (done _ refl (omega arith))))

button-rows : (x : Cert) → Adds is_row (revoke_button x) 0
unfolding revoke_button read_all read count
button-rows x = html-Adds is_row 0 _ _ (λ ts. by_text refl (done _ refl (omega arith)))

button-revokes : (x : Cert) → Adds is_revoke (revoke_button x) 1
unfolding revoke_button read_all read count
button-revokes x = html-Adds is_revoke 1 _ _ (λ ts. by_text refl (done _ refl (omega arith)))

pub if_same : (c : Bool) (n : ℕ) → (if c then n else n) ≡ n
if_same true n = refl
if_same false n = refl

cert_row-rows : (digits : ℤ → Text) (x : Cert) → Adds is_row (cert_row digits x) 1
unfolding cert_row read_all read count
cert_row-rows digits x = html-Adds is_row 1 _ _ (λ ts. by_text refl (
    by_text refl (
      by_value 0 _ refl (pill-rows (codes x.status)) (λ us k. by_text refl (
        by_text refl (
          by_text refl (
            by_text refl (
              by_text refl (
                by_text refl (
                  by_value 0 _ refl
                    (subst (Adds is_row _) (if_same (can_revoke x) 0)
                      (if-Adds is_row (can_revoke x) _ _ 0 0 (button-rows x) (text-Adds is_row [])))
                    (λ ws j. done _ refl (omega arith))))))))))))

cert_row-revokes : (digits : ℤ → Text) (x : Cert) → Adds is_revoke (cert_row digits x) (revokes x)
unfolding cert_row read_all read count
cert_row-revokes digits x = html-Adds is_revoke (revokes x) _ _ (λ ts. by_text refl (
    by_text refl (
      by_value 0 _ refl (pill-revokes (codes x.status)) (λ us k. by_text refl (
        by_text refl (
          by_text refl (
            by_text refl (
              by_text refl (
                by_text refl (
                  by_value (revokes x) _ refl
                    (if-Adds is_revoke (can_revoke x) _ _ 1 0 (button-revokes x)
                      (text-Adds is_revoke []))
                    (λ ws j. done _ refl (omega arith))))))))))))

sum-one : (xs : List Cert) → sum one xs ≡ length xs
unfolding sum
sum-one [] = refl
sum-one (x ∷ xs) = omega (arith, sum-one xs)

sum-revokes : (xs : List Cert) → sum revokes xs ≡ length (filter can_revoke xs)
unfolding sum
sum-revokes [] = refl
sum-revokes (x ∷ xs) = ground (arith, sum-revokes xs)

module _ (lower : Text → Text) (digits : ℤ → Text) (f : Filter) (inv : List Cert) where
  inventory-rows :
      Adds is_row (inventory_view lower digits f inv) (1 + length (shown_certs lower f inv))
  unfolding inventory_view read_all read count
  inventory-rows = html-Adds is_row _ _ _ (λ ts. by_text refl (
      by_text refl (
        by_value (sum one (shown_certs lower f inv)) _ refl
          (map_values-Adds is_row (cert_row digits) one _ (cert_row-rows digits))
          (λ us k. done _ refl (omega (arith, sum-one (shown_certs lower f inv)))))))

  inventory-revokes :
      Adds is_revoke
        (inventory_view lower digits f inv)
        (length (filter can_revoke (shown_certs lower f inv)))
  unfolding inventory_view read_all read count
  inventory-revokes = html-Adds is_revoke _ _ _ (λ ts. by_text refl (
      by_text refl (
        by_value (sum revokes (shown_certs lower f inv)) _ refl
          (map_values-Adds is_revoke (cert_row digits) revokes _ (cert_row-revokes digits))
          (λ us k. done _ refl (omega (arith, sum-revokes (shown_certs lower f inv)))))))

  -- A browser reads the table of certificates as one row for each certificate that the filter shows,
  -- below the row of the headings, and as one button that revokes for each of those that are active
  -- and issued here. No text of a certificate adds or hides a row or a button.
  pub inventory_view-Shows :
      Shows is_row is_revoke
        (inventory_view lower digits f inv)
        (1 + length (shown_certs lower f inv))
        (length (filter can_revoke (shown_certs lower f inv)))
  inventory_view-Shows =
      Adds-Shows is_row is_revoke _ _ _ (unfold inventory_view in html-IsHtml _ _) inventory-rows
        inventory-revokes
