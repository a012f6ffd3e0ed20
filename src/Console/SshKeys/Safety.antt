-- ===== src/Console/SshKeys/Safety.antt =====
-- The tags of the SSH keys of console.js.
use certadillo.Prelude.{List, codes, refl}
use certadillo.Prelude.Int.{ℤ}
use certadillo.Markup.{Text}
use certadillo.Markup.Tags.{
  Safe, by_text, by_value, done, html-Safe, if-Safe, map_values-Safe, read, read_all, text-Safe,
}
use certadillo.Console.Allowed.{is_allowed}
use certadillo.Console.Cells.{options}
use certadillo.Console.Cells.Safety.{pill-Safe}
use certadillo.Console.SshKeys.{
  KeyOption, SshKey, comment_note, no_restrictions, option_mark, orphaned_mark, owner_button,
  restrictions, ssh_key_row, ssh_keys_view, unclaimed,
}

pub orphaned_mark-Safe : Safe is_allowed orphaned_mark
unfolding orphaned_mark read_all read is_allowed
orphaned_mark-Safe =
    html-Safe is_allowed _ _
      (λ _ h0. by_value _ refl (pill-Safe (codes "orphaned")) h0 (λ _ h1. done _ refl h1))

pub comment_note-Safe : (comment : Text) → Safe is_allowed (comment_note comment)
unfolding comment_note read_all read is_allowed
comment_note-Safe comment = html-Safe is_allowed _ _ (λ _ h0. by_text refl (done _ refl h0))

pub option_mark-Safe : (o : KeyOption) → Safe is_allowed (option_mark o)
unfolding option_mark read_all read is_allowed
option_mark-Safe o = html-Safe is_allowed _ _ (λ _ h0. by_text refl (done _ refl h0))

pub no_restrictions-Safe : Safe is_allowed no_restrictions
unfolding no_restrictions read_all read is_allowed
no_restrictions-Safe = html-Safe is_allowed _ _ (λ _ h0. done _ refl h0)

pub restrictions-Safe : (options : List KeyOption) → Safe is_allowed (restrictions options)
unfolding restrictions
restrictions-Safe options =
    if-Safe is_allowed _ _ _ (map_values-Safe is_allowed _ _ option_mark-Safe) no_restrictions-Safe

pub unclaimed-Safe : Safe is_allowed unclaimed
unfolding unclaimed read_all read is_allowed
unclaimed-Safe = html-Safe is_allowed _ _ (λ _ h0. done _ refl h0)

pub owner_button-Safe : (id : Text) → Safe is_allowed (owner_button id)
unfolding owner_button read_all read is_allowed
owner_button-Safe id = html-Safe is_allowed _ _ (λ _ h0. by_text refl (done _ refl h0))

pub ssh_key_row-Safe : (k : SshKey) → Safe is_allowed (ssh_key_row k)
unfolding ssh_key_row read_all read is_allowed
ssh_key_row-Safe k = html-Safe is_allowed _ _ (λ _ h0. by_text refl (
    by_text refl (
      by_text refl (
        by_value _ refl (if-Safe is_allowed _ _ _ (text-Safe is_allowed _) (orphaned_mark-Safe)) h0
          (λ _ h1. by_text refl (
            by_text refl (
              by_text refl (
                by_value _ refl
                  (if-Safe is_allowed _ _ _ (comment_note-Safe k.comment) (text-Safe is_allowed _))
                  h1
                  (λ _ h2. by_value _ refl (restrictions-Safe k.options) h2 (λ _ h3. by_text refl (
                    by_value _ refl
                      (if-Safe is_allowed _ _ _ (text-Safe is_allowed _) (unclaimed-Safe)) h3
                      (λ _ h4.
                        by_value _ refl
                          (if-Safe is_allowed _ _ _ (owner_button-Safe k.id)
                            (pill-Safe (codes k.status)))
                          h4 (λ _ h5. done _ refl h5)))))))))))))

pub ssh_keys_view-Safe :
    (lower : Text → Text) (digits : ℤ → Text) (query : Text) (keys : List SshKey)
    → Safe is_allowed (ssh_keys_view lower digits query keys)
unfolding ssh_keys_view read_all read is_allowed
ssh_keys_view-Safe lower digits query keys = html-Safe is_allowed _ _ (λ _ h0. by_text refl (
    by_text refl (
      by_value _ refl (map_values-Safe is_allowed _ _ ssh_key_row-Safe) h0
        (λ _ h1. done _ refl h1))))
