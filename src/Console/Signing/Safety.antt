-- ===== src/Console/Signing/Safety.antt =====
-- The tags of the code signing of console.js.
use certadillo.Prelude.{List, codes, refl}
use certadillo.Markup.{Text}
use certadillo.Markup.Tags.{
  Safe, by_text, by_value, done, html-Safe, if-Safe, map_values-Safe, read, read_all, text-Safe,
}
use certadillo.Console.Allowed.{is_allowed}
use certadillo.Console.Cells.Safety.{pill-Safe}
use certadillo.Console.Signing.{
  SigningKey, SigningRequest, approval_note, signing_key_row, signing_keys_view,
  signing_request_row, signing_requests_view, version_note,
}

pub signing_key_row-Safe : (k : SigningKey) → Safe is_allowed (signing_key_row k)
unfolding signing_key_row read_all read is_allowed
signing_key_row-Safe k = html-Safe is_allowed _ _ (λ _ h0. by_text refl (
    by_text refl (
      by_value _ refl
        (if-Safe is_allowed _ _ _ (html-Safe is_allowed _ _ (λ _ h10. done _ refl h10))
          (text-Safe is_allowed _))
        h0
        (λ _ h1.
          by_text refl
            (by_text refl (by_value _ refl (pill-Safe k.status) h1 (λ _ h2. done _ refl h2)))))))

pub signing_keys_view-Safe : (keys : List SigningKey) → Safe is_allowed (signing_keys_view keys)
unfolding signing_keys_view read_all read is_allowed
signing_keys_view-Safe keys =
    if-Safe is_allowed _ _ _
      (html-Safe is_allowed _ _ (λ _ h0.
        by_value _ refl (map_values-Safe is_allowed _ _ signing_key_row-Safe) h0
          (λ _ h1. done _ refl h1)))
      (html-Safe is_allowed _ _ (λ _ h0. done _ refl h0))

pub version_note-Safe : (version : Text) → Safe is_allowed (version_note version)
unfolding version_note read_all read is_allowed
version_note-Safe version = html-Safe is_allowed _ _ (λ _ h0. by_text refl (done _ refl h0))

pub approval_note-Safe : (id : Text) → Safe is_allowed (approval_note id)
unfolding approval_note read_all read is_allowed
approval_note-Safe id = html-Safe is_allowed _ _ (λ _ h0. by_text refl (done _ refl h0))

pub signing_request_row-Safe : (r : SigningRequest) → Safe is_allowed (signing_request_row r)
unfolding signing_request_row read_all read is_allowed
signing_request_row-Safe r = html-Safe is_allowed _ _ (λ _ h0. by_text refl (
    by_text refl (
      by_value _ refl
        (if-Safe is_allowed _ _ _ (version_note-Safe r.version) (text-Safe is_allowed _)) h0
        (λ _ h1. by_text refl (
          by_text refl (
            by_text refl (
              by_text refl (
                by_text refl (
                  by_value _ refl (pill-Safe (codes r.status)) h1 (λ _ h2.
                    by_value _ refl
                      (if-Safe is_allowed _ _ _ (approval_note-Safe r.approval_id)
                        (text-Safe is_allowed _))
                      h2 (λ _ h3. done _ refl h3)))))))))))

pub signing_requests_view-Safe :
    (rows : List SigningRequest) → Safe is_allowed (signing_requests_view rows)
unfolding signing_requests_view read_all read is_allowed
signing_requests_view-Safe rows =
    if-Safe is_allowed _ _ _
      (html-Safe is_allowed _ _ (λ _ h0.
        by_value _ refl (map_values-Safe is_allowed _ _ signing_request_row-Safe) h0
          (λ _ h1. done _ refl h1)))
      (html-Safe is_allowed _ _ (λ _ h0. done _ refl h0))
