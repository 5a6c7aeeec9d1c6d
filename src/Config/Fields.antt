-- ===== src/Config/Fields.antt =====
-- Operations of Python's `str` that app/config.py uses.
use daraja_payment_wrapper.Prelude.{
  ℕ, Text, starts_with, Bool, ◌||◌, List, [], ◌∷◌, ◌==◌, if◌then◌else◌,
}

-- `part in s`
unfoldable pub contains : Text → Text → Bool
contains part [] = starts_with [] part
contains part (c ∷ s) = starts_with (c ∷ s) part || contains part s

abbrev pub before_slashes : ℕ → Text → Text
before_slashes c [] = if c == b'/' then [] else c ∷ []
before_slashes c (d ∷ t) = c ∷ d ∷ t

-- `s.rstrip("/")`
unfoldable pub strip_trailing_slash : Text → Text
strip_trailing_slash [] = []
strip_trailing_slash (c ∷ s) = before_slashes c (strip_trailing_slash s)

abbrev pub on_first : ℕ → List Text → List Text
on_first c [] = (c ∷ []) ∷ []
on_first c (t ∷ ts) = (c ∷ t) ∷ ts

-- `s.split(",")`
unfoldable pub split_comma : Text → List Text
split_comma [] = [] ∷ []
split_comma (c ∷ s) = if c == b',' then [] ∷ split_comma s else on_first c (split_comma s)
