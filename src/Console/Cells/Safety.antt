-- ===== src/Console/Cells/Safety.antt =====
-- The tags of the shared templates of console.js.
use certadillo.Prelude.{List, refl}
use certadillo.Markup.{Text}
use certadillo.Markup.Tags.{
  Safe, by_text, by_value, done, html-Safe, if-Safe, map_values-Safe, read, read_all, text-Safe,
}
use certadillo.Console.Allowed.{is_allowed}
use certadillo.Console.Cells.{
  failure, option_first, option_row, options, pill, refused, tab_button, tabs_view,
}

pub pill-Safe : (s : Text) → Safe is_allowed (pill s)
unfolding pill read_all read is_allowed
pill-Safe s = html-Safe is_allowed _ _ (λ _ h0. by_text refl (by_text refl (done _ refl h0)))

pub option_row-Safe : (value : Text) (label : Text) → Safe is_allowed (option_row value label)
unfolding option_row read_all read is_allowed
option_row-Safe value label =
    html-Safe is_allowed _ _ (λ _ h0. by_text refl (by_text refl (done _ refl h0)))

pub option_first-Safe : (first : Text) → Safe is_allowed (option_first first)
unfolding option_first read_all read is_allowed
option_first-Safe first = html-Safe is_allowed _ _ (λ _ h0. by_text refl (done _ refl h0))

pub refused-Safe : (message : Text) → Safe is_allowed (refused message)
unfolding refused read_all read is_allowed
refused-Safe message = html-Safe is_allowed _ _ (λ _ h0. by_text refl (done _ refl h0))

pub failure-Safe : (message : Text) → Safe is_allowed (failure message)
unfolding failure read_all read is_allowed
failure-Safe message = html-Safe is_allowed _ _ (λ _ h0. by_text refl (done _ refl h0))

pub tab_button-Safe : (tab : (Text × Text)) → Safe is_allowed (tab_button tab)
unfolding tab_button read_all read is_allowed
tab_button-Safe tab =
    html-Safe is_allowed _ _ (λ _ h0. by_text refl (by_text refl (done _ refl h0)))

pub tabs_view-Safe : (tabs : List (Text × Text)) → Safe is_allowed (tabs_view tabs)
unfolding tabs_view read_all read is_allowed
tabs_view-Safe tabs = html-Safe is_allowed _ _ (λ _ h0.
    by_value _ refl (map_values-Safe is_allowed _ _ tab_button-Safe) h0 (λ _ h1. done _ refl h1))

pub options-Safe :
    {A : Type 0} (value label : A → Text) (first : Text) (rows : List A)
    → Safe is_allowed (options value label first rows)
unfolding options read_all read is_allowed
options-Safe value label first rows = html-Safe is_allowed _ _ (λ _ h.
    by_value _ refl (if-Safe is_allowed _ _ _ (option_first-Safe first) (text-Safe is_allowed _)) h
      (λ _ h'.
        by_value _ refl (map_values-Safe is_allowed _ _ (λ r. option_row-Safe (value r) (label r)))
          h' (λ _ h''. done _ refl h'')))
