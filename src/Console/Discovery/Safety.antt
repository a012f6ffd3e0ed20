-- ===== src/Console/Discovery/Safety.antt =====
-- The tags of the discovery of console.js.
use certadillo.Prelude.{List, Option, [], codes, none, refl, some}
use certadillo.Markup.{Text}
use certadillo.Markup.Tags.{
  Safe, by_text, by_value, done, html-Safe, if-Safe, map_values-Safe, read, read_all, text-Safe,
}
use certadillo.Console.Allowed.{is_allowed}
use certadillo.Console.Cells.Safety.{pill-Safe}
use certadillo.Console.Discovery.{
  Detail, Finding, Scanned, Source, broken_rule, comment_label, error_note, finding_row,
  findings_view, found_note, found_or, label_of, mode_label, public_label, scan_certificate,
  scan_error, scan_row, scan_view, source_row, sources_view, ssh_label, untracked_label,
}

pub scan_error-Safe : (error : Text) → Safe is_allowed (scan_error error)
unfolding scan_error read_all read is_allowed
scan_error-Safe error = html-Safe is_allowed _ _ (λ _ h0. by_text refl (done _ refl h0))

pub scan_certificate-Safe : (x : Scanned) → Safe is_allowed (scan_certificate x)
unfolding scan_certificate read_all read is_allowed
scan_certificate-Safe x = html-Safe is_allowed _ _ (λ _ h0. by_text refl (
    by_value _ refl (if-Safe is_allowed _ _ _ (pill-Safe (codes "new")) (text-Safe is_allowed _)) h0
      (λ _ h1. by_text refl (done _ refl h1))))

pub broken_rule-Safe : (rule : Text) → Safe is_allowed (broken_rule rule)
unfolding broken_rule read_all read is_allowed
broken_rule-Safe rule =
    html-Safe is_allowed _ _ (λ _ h0. by_value _ refl (pill-Safe rule) h0 (λ _ h1. done _ refl h1))

pub scan_row-Safe : (x : Scanned) → Safe is_allowed (scan_row x)
unfolding scan_row read_all read is_allowed
scan_row-Safe x = html-Safe is_allowed _ _ (λ _ h0. by_text refl (
    by_value _ refl (if-Safe is_allowed _ _ _ (scan_error-Safe x.error) (scan_certificate-Safe x))
      h0
      (λ _ h1.
        by_value _ refl (map_values-Safe is_allowed _ _ broken_rule-Safe) h1
          (λ _ h2. done _ refl h2))))

pub scan_view-Safe : (rows : List Scanned) → Safe is_allowed (scan_view rows)
unfolding scan_view read_all read is_allowed
scan_view-Safe rows = html-Safe is_allowed _ _ (λ _ h0.
    by_value _ refl (map_values-Safe is_allowed _ _ scan_row-Safe) h0 (λ _ h1. done _ refl h1))

pub comment_label-Safe : (comment : Text) → Safe is_allowed (comment_label comment)
unfolding comment_label read_all read is_allowed
comment_label-Safe comment = html-Safe is_allowed _ _ (λ _ h0. by_text refl (done _ refl h0))

pub ssh_label-Safe : (d : Detail) → Safe is_allowed (ssh_label d)
unfolding ssh_label read_all read is_allowed
ssh_label-Safe d = html-Safe is_allowed _ _ (λ _ h0. by_text refl (
    by_text refl (
      by_value _ refl
        (if-Safe is_allowed _ _ _ (comment_label-Safe d.comment) (text-Safe is_allowed _)) h0
        (λ _ h1. by_text refl (done _ refl h1)))))

pub public_label-Safe : (d : Detail) → Safe is_allowed (public_label d)
unfolding public_label read_all read is_allowed
public_label-Safe d =
    html-Safe is_allowed _ _ (λ _ h0. by_text refl (by_text refl (done _ refl h0)))

pub untracked_label-Safe : (d : Detail) → Safe is_allowed (untracked_label d)
unfolding untracked_label read_all read is_allowed
untracked_label-Safe d =
    html-Safe is_allowed _ _ (λ _ h0. by_text refl (by_text refl (done _ refl h0)))

pub mode_label-Safe : (d : Detail) → Safe is_allowed (mode_label d)
unfolding mode_label read_all read is_allowed
mode_label-Safe d = html-Safe is_allowed _ _ (λ _ h0. by_text refl (by_text refl (done _ refl h0)))

pub label_of-Safe : (f : Finding) → Safe is_allowed (label_of f)
unfolding label_of
label_of-Safe f = if-Safe is_allowed _ _ _ (ssh_label-Safe f.detail) (
    if-Safe is_allowed _ _ _ (public_label-Safe f.detail)
      (if-Safe is_allowed _ _ _ (untracked_label-Safe f.detail) (mode_label-Safe f.detail)))

pub finding_row-Safe : (f : Finding) → Safe is_allowed (finding_row f)
unfolding finding_row read_all read is_allowed
finding_row-Safe f = html-Safe is_allowed _ _ (λ _ h0.
    by_value _ refl (pill-Safe f.kind) h0 (λ _ h1. by_text refl (
      by_value _ refl (label_of-Safe f) h1 (λ _ h2. by_text refl (by_text refl (done _ refl h2))))))

pub findings_view-Safe : (rows : List Finding) → Safe is_allowed (findings_view rows)
unfolding findings_view read_all read is_allowed
findings_view-Safe rows =
    if-Safe is_allowed _ _ _
      (html-Safe is_allowed _ _ (λ _ h0.
        by_value _ refl (map_values-Safe is_allowed _ _ finding_row-Safe) h0
          (λ _ h1. done _ refl h1)))
      (html-Safe is_allowed _ _ (λ _ h0. done _ refl h0))

pub found_note-Safe :
    (found : Text) (new_found : Text) → Safe is_allowed (found_note found new_found)
unfolding found_note read_all read is_allowed
found_note-Safe found new_found =
    html-Safe is_allowed _ _ (λ _ h0. by_text refl (by_text refl (done _ refl h0)))

pub error_note-Safe : (error : Text) → Safe is_allowed (error_note error)
unfolding error_note read_all read is_allowed
error_note-Safe error = html-Safe is_allowed _ _ (λ _ h0. by_text refl (done _ refl h0))

pub found_or-Safe :
    (found : Option Text) (new_found : Text) → Safe is_allowed (found_or found new_found)
found_or-Safe none new_found = text-Safe is_allowed []
found_or-Safe (some found) new_found = found_note-Safe found new_found

pub source_row-Safe : (r : Source) → Safe is_allowed (source_row r)
unfolding source_row read_all read is_allowed
source_row-Safe r = html-Safe is_allowed _ _ (λ _ h0. by_text refl (
    by_text refl (
      by_text refl (
        by_value _ refl (if-Safe is_allowed _ _ _ (pill-Safe r.status) (text-Safe is_allowed _)) h0
          (λ _ h1. by_value _ refl (found_or-Safe r.found r.new_found) h1 (λ _ h2.
            by_value _ refl
              (if-Safe is_allowed _ _ _ (error_note-Safe r.error) (text-Safe is_allowed _)) h2
              (λ _ h3. by_text refl (done _ refl h3))))))))

pub sources_view-Safe : (rows : List Source) → Safe is_allowed (sources_view rows)
unfolding sources_view read_all read is_allowed
sources_view-Safe rows =
    if-Safe is_allowed _ _ _
      (html-Safe is_allowed _ _ (λ _ h0.
        by_value _ refl (map_values-Safe is_allowed _ _ source_row-Safe) h0
          (λ _ h1. done _ refl h1)))
      (html-Safe is_allowed _ _ (λ _ h0. done _ refl h0))
