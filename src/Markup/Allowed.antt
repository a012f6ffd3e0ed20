-- ===== src/Markup/Allowed.antt =====
-- Tags that are allowed, as the reader of Markup/Tags reads them.
use certadillo.Prelude.{
  ℕ, Bool, true, false, ◌&&◌, ◌||◌, List, [], ◌∷◌, ◌==◌, codes, all, if◌then◌else◌,
}
use certadillo.Markup.{Text}

abbrev pub same_text : Text → Text → Bool
same_text [] [] = true
same_text (a ∷ s) (b ∷ t) = if a == b then same_text s t else false
same_text _ _ = false

abbrev any_of : List Text → Text → Bool
any_of [] t = false
any_of (a ∷ names) t = same_text a t || any_of names t

-- A `data-` attribute only keeps a text.
abbrev is_data : Text → Bool
is_data (a ∷ b ∷ c ∷ d ∷ e ∷ t) = same_text (a ∷ b ∷ c ∷ d ∷ e ∷ []) (codes "data-")
is_data _ = false

abbrev push_unit : ℕ → List Text → List Text
push_unit c [] = (c ∷ []) ∷ []
push_unit c (w ∷ ws) = (c ∷ w) ∷ ws

-- The words of a tag, split at each space.
unfoldable split_words : Text → List Text
split_words [] = [] ∷ []
split_words (c ∷ t) = let rest = split_words t in if c == 32 then [] ∷ rest else push_unit c rest

abbrev is_attribute : List Text → Text → Bool
is_attribute names [] = true
is_attribute names a = is_data a || any_of names a

abbrev allowed_words : List Text → List Text → List Text → Bool
allowed_words elements names [] = false
allowed_words elements names (name ∷ attributes) =
    any_of elements name && all (is_attribute names) attributes

-- The tag, with the values of its attributes left out, opens one of the elements, with none but the
-- attributes that are named and such as begin with `data-`, or closes one.
unfoldable pub allows : List Text → List Text → Text → Bool
unfolding split_words
allows elements names (c ∷ t) =
    if c == b'/' then any_of elements t else allowed_words elements names (split_words (c ∷ t))
allows elements names [] = false
