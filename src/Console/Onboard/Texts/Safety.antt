-- ===== src/Console/Onboard/Texts/Safety.antt =====
-- The tags of the onboarding wizard of console.js.
use certadillo.Prelude.{List, codes, refl}
use certadillo.Prelude.Int.{ℤ}
use certadillo.Markup.{Text}
use certadillo.Markup.Tags.{
  Safe, by_text, by_value, done, html-Safe, if-Safe, map_values-Safe, read, read_all,
}
use certadillo.Console.Allowed.{is_allowed}
use certadillo.Console.Cells.Safety.{pill-Safe}
use certadillo.Console.Onboard.{App}
use certadillo.Console.Onboard.Texts.{
  Eab, Profile, Team, api_key_view, eab_view, profile_row, profiles_view, team_row, teams_view,
  waiting_view,
}

pub team_row-Safe : (t : Team) → Safe is_allowed (team_row t)
unfolding team_row read_all read is_allowed
team_row-Safe t =
    html-Safe is_allowed _ _ (λ _ h0. by_text refl (by_text refl (by_text refl (done _ refl h0))))

pub teams_view-Safe : (teams : List Team) → Safe is_allowed (teams_view teams)
unfolding teams_view read_all read is_allowed
teams_view-Safe teams =
    if-Safe is_allowed _ _ _
      (html-Safe is_allowed _ _ (λ _ h0.
        by_value _ refl (map_values-Safe is_allowed _ _ team_row-Safe) h0 (λ _ h1. done _ refl h1)))
      (html-Safe is_allowed _ _ (λ _ h0. done _ refl h0))

pub profile_row-Safe : (p : Profile) → Safe is_allowed (profile_row p)
unfolding profile_row read_all read is_allowed
profile_row-Safe p =
    html-Safe is_allowed _ _ (λ _ h0. by_text refl (by_text refl (by_text refl (done _ refl h0))))

pub profiles_view-Safe : (profiles : List Profile) → Safe is_allowed (profiles_view profiles)
unfolding profiles_view read_all read is_allowed
profiles_view-Safe profiles = html-Safe is_allowed _ _ (λ _ h0.
    by_value _ refl (map_values-Safe is_allowed _ _ profile_row-Safe) h0 (λ _ h1. done _ refl h1))

pub waiting_view-Safe : (digits : ℤ → Text) (a : App) → Safe is_allowed (waiting_view digits a)
unfolding waiting_view read_all read is_allowed
waiting_view-Safe digits a = html-Safe is_allowed _ _ (λ _ h0. by_text refl (
    by_value _ refl (pill-Safe (codes a.status)) h0
      (λ _ h1. by_text refl (by_text refl (done _ refl h1)))))

pub api_key_view-Safe : (base : Text) (key : Text) → Safe is_allowed (api_key_view base key)
unfolding api_key_view read_all read is_allowed
api_key_view-Safe base key = html-Safe is_allowed _ _ (λ _ h0.
    by_text refl (by_text refl (by_text refl (by_text refl (by_text refl (done _ refl h0))))))

pub eab_view-Safe : (base : Text) (c : Eab) → Safe is_allowed (eab_view base c)
unfolding eab_view read_all read is_allowed
eab_view-Safe base c = html-Safe is_allowed _ _ (λ _ h0.
    by_text refl (by_text refl (by_text refl (by_text refl (by_text refl (done _ refl h0))))))
