-- ===== src/Console/Inventory/Shown.antt =====
-- Which certificates the inventory of console.js shows.
use text.Mathlib.TextEquality.{eq_iff}
use certadillo.Prelude.{
  ◌≡◌, refl, ◌⊎◌, ◌↔◌, true, List, [], ◌∷◌, ◌++◌, arith, codes, In, In-filter, filter-In,
}
use certadillo.Markup.{Text}
use certadillo.Words.{join}
use certadillo.Words.Within.{Within, has_word-Within, Within-has_word}
use certadillo.Console.Inventory.{Cert, Filter, is_blank, searched, includes, keeps, shown_certs}

-- What is searched of a certificate: its name, serial number and location and its other names.
abbrev pub all_text : Cert → Text
all_text x =
    x.common_name
    ++ (codes " "
        ++ (x.serial ++ (codes " " ++ (x.location ++ (codes " " ++ join (codes " ") x.sans)))))

-- What the three fields of the filter mean: an empty one asks nothing, and the text stands somewhere in
-- what is searched, in any case.
pub record Meets (lower : Text → Text) (f : Filter) (x : Cert) : Type 0 where
  pub status : (is_blank f.status ≡ true) ⊎ (x.status ≡ f.status)
  pub source : (is_blank f.source ≡ true) ⊎ (x.source ≡ f.source)
  pub query : Within (lower f.query) (lower (all_text x))

includes_iff : (t q : Text) → (includes t q ≡ true) ↔ Within q t
includes_iff t [] = ((λ h. record { before = []; after = t; split = refl }), λ k. refl)
includes_iff t (c ∷ q) = (has_word-Within (c ∷ q) t, Within-has_word (c ∷ q) t)

searched_lem : (x : Cert) → searched x ≡ all_text x
unfolding join
searched_lem x = refl

includes_lower :
    (lower : Text → Text) (f : Filter) (x : Cert)
    → (includes (lower (searched x)) (lower f.query) ≡ true)
      ↔ Within (lower f.query) (lower (all_text x))
includes_lower lower f x = rw (searched_lem x) (includes_iff (lower (all_text x)) (lower f.query))

keeps_iff :
    (lower : Text → Text) (f : Filter) (x : Cert) → (keeps lower f x ≡ true) ↔ Meets lower f x
unfolding keeps
keeps_iff lower f x =
    ground (arith, eq_iff x.status f.status, eq_iff x.source f.source, includes_lower lower f x)

-- The table lists exactly the certificates of the inventory that meet the three fields of the filter:
-- the status and the source are those that are chosen, if one is, and the text that is typed stands
-- somewhere in the common name, serial number, location and other names, with a space between each
-- two, both sides in lower case.
pub shown_certs_iff :
    (lower : Text → Text) (f : Filter) (inv : List Cert) (x : Cert)
    → In x (shown_certs lower f inv) ↔ (In x inv × Meets lower f x)
unfolding shown_certs
shown_certs_iff lower f inv x = (
  (λ h. let (i, k) = In-filter (keeps lower f) x inv h in (i, (keeps_iff lower f x).0 k)),
  λ h. filter-In (keeps lower f) x inv h.0 ((keeps_iff lower f x).1 h.1),
)
