-- ===== src/Console/Folders/Effective/Safety.antt =====
-- The tags of the effective policy of console.js.
use certadillo.Prelude.{List, refl}
use certadillo.Prelude.Int.{ℤ}
use certadillo.Markup.{Text}
use certadillo.Markup.Tags.{
  Safe, by_text, by_value, done, html-Safe, if-Safe, map_values-Safe, read, read_all, text-Safe,
}
use certadillo.Console.Allowed.{is_allowed}
use certadillo.Console.Folders.Effective.{
  Effective, FolderRule, app_option, app_options, effective_row, effective_table, effective_view,
  in_folder,
}

pub app_option-Safe : (app : (Text × Text)) → Safe is_allowed (app_option app)
unfolding app_option read_all read is_allowed
app_option-Safe app =
    html-Safe is_allowed _ _ (λ _ h0. by_text refl (by_text refl (done _ refl h0)))

pub app_options-Safe : (apps : List (Text × Text)) → Safe is_allowed (app_options apps)
unfolding app_options read_all read is_allowed
app_options-Safe apps = html-Safe is_allowed _ _ (λ _ h0.
    by_value _ refl (map_values-Safe is_allowed _ _ app_option-Safe) h0 (λ _ h1. done _ refl h1))

pub in_folder-Safe : (folder : Text) → Safe is_allowed (in_folder folder)
unfolding in_folder read_all read is_allowed
in_folder-Safe folder = html-Safe is_allowed _ _ (λ _ h0. by_text refl (done _ refl h0))

pub effective_row-Safe :
    (digits : ℤ → Text) (r : FolderRule) → Safe is_allowed (effective_row digits r)
unfolding effective_row read_all read is_allowed
effective_row-Safe digits r =
    html-Safe is_allowed _ _
      (λ _ h0. by_text refl (by_text refl (by_text refl (by_text refl (done _ refl h0)))))

pub effective_table-Safe :
    (digits : ℤ → Text) (rules : List FolderRule) → Safe is_allowed (effective_table digits rules)
unfolding effective_table read_all read is_allowed
effective_table-Safe digits rules = html-Safe is_allowed _ _ (λ _ h0.
    by_value _ refl (map_values-Safe is_allowed _ _ (effective_row-Safe digits)) h0
      (λ _ h1. done _ refl h1))

pub effective_view-Safe :
    (digits : ℤ → Text) (r : Effective) → Safe is_allowed (effective_view digits r)
unfolding effective_view read_all read is_allowed
effective_view-Safe digits r = html-Safe is_allowed _ _ (λ _ h0. by_text refl (
    by_text refl (
      by_value _ refl (if-Safe is_allowed _ _ _ (in_folder-Safe r.folder) (text-Safe is_allowed _))
        h0
        (λ _ h1.
          by_value _ refl
            (if-Safe is_allowed _ _ _ (effective_table-Safe digits r.folder_rules)
              (html-Safe is_allowed _ _ (λ _ h10. done _ refl h10)))
            h1 (λ _ h2. done _ refl h2)))))
