-- ===== src/Console/Editor/Known.antt =====
-- The folders that have been loaded for the form of console.js.
use certadillo.Prelude.{
  List, [], ◌∷◌, ◌++◌, none, some, refl, In, In-append_left, In-append_right, inl, inr, All,
}
use certadillo.Console.Folders.{Folder}
use certadillo.Console.Editor.{
  Event, click_edit, click_reset, click_add, change_rows, type_name, choose_parent, click_save,
  answered, loaded,
}

-- The folders that the events load.
unfoldable pub folders_in : List Event → List Folder
folders_in [] = []
folders_in (loaded settings (some fs) ∷ xs) = fs ++ folders_in xs
folders_in (_ ∷ xs) = folders_in xs

-- All folders that an event loads are known.
abbrev pub EventOk : (Folder → Type 0) → Event → Type 0
EventOk Known (loaded settings (some fs)) = All Known fs
EventOk Known _ = Unit

All-of_In : (P : Folder → Type 0) (fs : List Folder) → ((f : Folder) → In f fs → P f) → All P fs
All-of_In P [] h = tt
All-of_In P (f ∷ fs) h = (h f (inl refl), All-of_In P fs (λ g i. h g (inr i)))

pub All-EventOk :
    (P : Folder → Type 0) (xs : List Event)
    → ((f : Folder) → In f (folders_in xs) → P f)
    → All (EventOk P) xs
unfolding folders_in
All-EventOk P [] h = tt
All-EventOk P (loaded settings (some fs) ∷ xs) h = (
  All-of_In P fs (λ f i. h f (In-append_left f fs (folders_in xs) i)),
  All-EventOk P xs (λ f i. h f (In-append_right f fs (folders_in xs) i)),
)
All-EventOk P (loaded settings none ∷ xs) h = (tt, All-EventOk P xs h)
All-EventOk P (click_edit id ∷ xs) h = (tt, All-EventOk P xs h)
All-EventOk P (click_reset ∷ xs) h = (tt, All-EventOk P xs h)
All-EventOk P (click_add ∷ xs) h = (tt, All-EventOk P xs h)
All-EventOk P (change_rows rows ∷ xs) h = (tt, All-EventOk P xs h)
All-EventOk P (type_name t ∷ xs) h = (tt, All-EventOk P xs h)
All-EventOk P (choose_parent p ∷ xs) h = (tt, All-EventOk P xs h)
All-EventOk P (click_save ∷ xs) h = (tt, All-EventOk P xs h)
All-EventOk P (answered reply ∷ xs) h = (tt, All-EventOk P xs h)
