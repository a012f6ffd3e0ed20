-- ===== src/Console/Folders/Drawing/Safety.antt =====
-- The tags of the policy tree of console.js.
use certadillo.Prelude.{
  Bool, List, Option, String, [], codes, none, refl, some, subst, suc, zero, ℕ, ◌∷◌, ◌≡◌,
}
use certadillo.Prelude.Int.{ℤ}
use certadillo.Markup.{Text, Value, Values, array, html}
use certadillo.Markup.Tags.{
  IsHtml, Safe, by_text, by_value, cons-Safe, done, html-IsHtml, html-Safe, if-Safe,
  map_values-Safe, nil-Safe, read, read_all, text-Safe, only,
}
use certadillo.Console.Allowed.{is_allowed}
use certadillo.Console.Folders.{Folder, kids}
use certadillo.Console.Folders.Drawing.{folder_item, folder_rule, map_items, node_view, tree_view}
use certadillo.Console.Folders.Tree.{bind_some, some_inj}
use certadillo.Console.Rules.{Rule}

pub folder_rule-Safe :
    (digits : ℤ → Text) (entry : (String × Rule)) → Safe is_allowed (folder_rule digits entry)
unfolding folder_rule read_all read is_allowed
folder_rule-Safe digits entry =
    html-Safe is_allowed _ _
      (λ _ h0. by_text refl (by_text refl (by_text refl (by_text refl (done _ refl h0)))))

folder_item-Safe :
    (digits : ℤ → Text) (f : Folder) (c : Bool) (below : Values)
    → Safe is_allowed (array below)
    → Safe is_allowed (folder_item digits f c below)
unfolding folder_item read_all read is_allowed
folder_item-Safe digits f c below safe_below = html-Safe is_allowed _ _ (λ _ h. by_text refl (
    by_text refl (
      by_text refl (
        by_text refl (
          by_value _ refl (map_values-Safe is_allowed _ _ (folder_rule-Safe digits)) h (λ _ h'.
            by_value _ refl
              (if-Safe is_allowed _ _ _
                (html-Safe is_allowed _ _
                  (λ _ k. by_value _ refl safe_below k (λ _ k'. done _ refl k')))
                (text-Safe is_allowed _))
              h' (λ _ k. done _ refl k)))))))

map_items-Safe :
    (node : Folder → Option Value)
    → ((f : Folder) (v : Value) → node f ≡ some v → Safe is_allowed v)
    → (ks : List Folder) (vs : Values) → map_items node ks ≡ some vs
    → Safe is_allowed (array vs)
unfolding map_items
map_items-Safe node h [] vs e =
    subst (λ ws. Safe is_allowed (array ws)) (some_inj _ _ e) (nil-Safe is_allowed)
map_items-Safe node h (f ∷ ks) vs e =
    let (here, eh, e') = bind_some (node f) _ e in
    let (rest, er, e'') = bind_some (map_items node ks) _ e' in
    subst (λ ws. Safe is_allowed (array ws)) (some_inj _ _ e'')
      (cons-Safe is_allowed here rest (h f here eh) (map_items-Safe node h ks rest er))

node_view-Safe :
    (digits : ℤ → Text) (fuel : ℕ) (fs : List Folder) (f : Folder) (v : Value)
    → node_view digits fuel fs f ≡ some v
    → Safe is_allowed v
unfolding node_view
node_view-Safe digits zero fs f v e = cc
node_view-Safe digits (suc fuel) fs f v e =
    let (below, eb, e') =
      bind_some (map_items (node_view digits fuel fs) (kids fs (some f.id))) _ e in
    subst (Safe is_allowed) (some_inj _ _ e') (
      folder_item-Safe digits f _ below
        (map_items-Safe (node_view digits fuel fs) (node_view-Safe digits fuel fs) _ below eb))

pub tree_list-Safe :
    (below : Values)
    → Safe is_allowed (array below)
    → Safe is_allowed (html (codes "<ul class=\"tree\">") ((array below, codes "</ul>") ∷ []))
unfolding read_all read is_allowed
tree_list-Safe below safe_below =
    html-Safe is_allowed _ _ (λ _ k. by_value _ refl safe_below k (λ _ k'. done _ refl k'))

pub no_folders-Safe :
    Safe is_allowed (only (codes "No folders yet. Apps use their profile's rules only."))
unfolding read_all read is_allowed
no_folders-Safe = html-Safe is_allowed _ _ (λ _ h. done _ refl h)

pub tree_view-Safe :
    (digits : ℤ → Text) (fuel : ℕ) (fs : List Folder) (v : Value)
    → tree_view digits fuel fs ≡ some v
    → Safe is_allowed v × IsHtml v
unfolding tree_view
tree_view-Safe digits fuel [] v e =
    subst (λ w. Safe is_allowed w × IsHtml w) (some_inj _ _ e) (no_folders-Safe, html-IsHtml _ _)
tree_view-Safe digits fuel (f ∷ fs) v e =
    let (below, eb, e') =
      bind_some (map_items (node_view digits fuel (f ∷ fs)) (kids (f ∷ fs) none)) _ e in
    subst (λ w. Safe is_allowed w × IsHtml w) (some_inj _ _ e')
      (
        tree_list-Safe below (
            map_items-Safe (node_view digits fuel (f ∷ fs)) (node_view-Safe digits fuel (f ∷ fs)) _
              below eb),
        html-IsHtml _ _,
      )
