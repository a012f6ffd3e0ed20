-- ===== src/Console/Inventory/Table/Buttons.antt =====
-- The rows and the buttons of the table of console.js for approvals.
use certadillo.Prelude.{
  ℕ, ◌+◌, ◌||◌, ◌≡◌, refl, subst, Bool, List, [], ◌∷◌, codes, str_eq, length, length-append, arith,
  if◌then◌else◌,
}
use certadillo.Markup.{Text}
use certadillo.Markup.Allowed.{same_text}
use certadillo.Markup.Tags.{read_all, read, html-IsHtml}
use certadillo.Markup.Counts.{
  count, sum, Adds, done, by_text, by_value, Shows, Adds-Shows, html-Adds, text-Adds, if-Adds,
  map_values-Adds,
}
use certadillo.Console.Cells.{pill, is_set}
use certadillo.Console.Inventory.{Approval, buttons, all_buttons}
use certadillo.Console.Inventory.Table.{approval_row, decided_by, decide_buttons, approvals_view}
use certadillo.Console.Inventory.Table.Rows.{is_row, pill-rows, if_same}

-- A tag that opens a button that approves or rejects.
abbrev pub is_decision : Text → Bool
is_decision t =
    same_text t (codes "button class=\"\" data-ok=\"\"")
    || same_text t (codes "button data-no=\"\"")

pill-decisions : (s : Text) → Adds is_decision (pill s) 0
unfolding pill read_all read count
pill-decisions s =
    html-Adds is_decision 0 _ _ (λ ts. by_text refl (by_text refl (done _ refl (omega arith))))

by-rows : (s : Text) → Adds is_row (decided_by s) 0
unfolding decided_by read_all read count
by-rows s = html-Adds is_row 0 _ _ (λ ts. by_text refl (done _ refl (omega arith)))

by-decisions : (s : Text) → Adds is_decision (decided_by s) 0
unfolding decided_by read_all read count
by-decisions s = html-Adds is_decision 0 _ _ (λ ts. by_text refl (done _ refl (omega arith)))

both-rows : (id : Text) → Adds is_row (decide_buttons id) 0
unfolding decide_buttons read_all read count
both-rows id =
    html-Adds is_row 0 _ _ (λ ts. by_text refl (by_text refl (done _ refl (omega arith))))

both-decisions : (id : Text) → Adds is_decision (decide_buttons id) 2
unfolding decide_buttons read_all read count
both-decisions id =
    html-Adds is_decision 2 _ _ (λ ts. by_text refl (by_text refl (done _ refl (omega arith))))

decisions : Approval → ℕ
decisions r = if str_eq r.status "pending" then 2 else 0

row-rows : (r : Approval) → Adds is_row (approval_row r) 1
unfolding approval_row read_all read count
row-rows r = html-Adds is_row 1 _ _ (λ ts. by_text refl (
    by_text refl (
      by_text refl (
        by_text refl (
          by_value 0 _ refl (pill-rows (codes r.status)) (λ us k.
            by_value 0 _ refl
              (subst (Adds is_row _) (if_same (is_set r.decided_by) 0) (
                if-Adds is_row (is_set r.decided_by) _ _ 0 0 (by-rows r.decided_by)
                  (text-Adds is_row [])))
              (λ vs j.
                by_value 0 _ refl
                  (subst (Adds is_row _) (if_same (str_eq r.status "pending") 0) (
                    if-Adds is_row (str_eq r.status "pending") _ _ 0 0 (both-rows (codes r.id))
                      (text-Adds is_row [])))
                  (λ ws i. done _ refl (omega arith)))))))))

row-decisions : (r : Approval) → Adds is_decision (approval_row r) (decisions r)
unfolding approval_row read_all read count decisions
row-decisions r = html-Adds is_decision (decisions r) _ _ (λ ts. by_text refl (
    by_text refl (
      by_text refl (
        by_text refl (
          by_value 0 _ refl (pill-decisions (codes r.status)) (λ us k.
            by_value 0 _ refl
              (subst (Adds is_decision _) (if_same (is_set r.decided_by) 0) (
                if-Adds is_decision (is_set r.decided_by) _ _ 0 0 (by-decisions r.decided_by)
                  (text-Adds is_decision [])))
              (λ vs j.
                by_value (decisions r) _ refl
                  (if-Adds is_decision (str_eq r.status "pending") _ _ 2 0
                    (both-decisions (codes r.id)) (text-Adds is_decision []))
                  (λ ws i. done _ refl (omega arith)))))))))

sum-decisions : (rows : List Approval) → sum decisions rows ≡ length (all_buttons rows)
unfolding sum all_buttons buttons decisions
sum-decisions [] = refl
sum-decisions (r ∷ rows) =
    ground (arith, sum-decisions rows, length-append (buttons r) (all_buttons rows))

sum-one : (rows : List Approval) → sum (λ r. 1) rows ≡ length rows
unfolding sum
sum-one [] = refl
sum-one (r ∷ rows) = omega (arith, sum-one rows)

rows_lem :
    (r : Approval) (rows : List Approval)
    → Adds is_row (approvals_view (r ∷ rows)) (1 + length (r ∷ rows))
unfolding approvals_view read_all read count
rows_lem r rows = html-Adds is_row _ _ _ (λ ts.
    by_value (sum (λ r. 1) (r ∷ rows)) _ refl
      (map_values-Adds is_row approval_row (λ r. 1) (r ∷ rows) row-rows)
      (λ us k. done _ refl (omega (arith, sum-one (r ∷ rows)))))

decisions_lem :
    (r : Approval) (rows : List Approval)
    → Adds is_decision (approvals_view (r ∷ rows)) (length (all_buttons (r ∷ rows)))
unfolding approvals_view read_all read count
decisions_lem r rows = html-Adds is_decision _ _ _ (λ ts.
    by_value (sum decisions (r ∷ rows)) _ refl
      (map_values-Adds is_decision approval_row decisions (r ∷ rows) row-decisions)
      (λ us k. done _ refl (omega (arith, sum-decisions (r ∷ rows)))))

-- A browser reads the table of approvals, if there are any, as one row for each of them, below the row
-- of the headings, and as one button for each of the buttons of its rows: two for an approval that is
-- pending and none for another. No text of an approval adds or hides a row or a button.
pub approvals_view-Shows :
    (r : Approval) (rows : List Approval)
    → Shows is_row is_decision
        (approvals_view (r ∷ rows))
        (1 + length (r ∷ rows))
        (length (all_buttons (r ∷ rows)))
approvals_view-Shows r rows =
    Adds-Shows is_row is_decision _ _ _ (unfold approvals_view in html-IsHtml _ _) (rows_lem r rows)
      (decisions_lem r rows)
