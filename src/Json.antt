-- ===== src/Json.antt =====
-- Python dictionaries that come from JSON, as lists of entries without repeated keys.
use daraja_payment_wrapper.Prelude.{
  Text, text_eq, text_eq_iff, ◌≡◌, refl, Bool, Option, none, some, List, [], ◌∷◌, arith,
  if◌then◌else◌,
}
use daraja_payment_wrapper.Prelude.Int.{ℤ}
use daraja_payment_wrapper.Payment.{Decimal}

-- A value of type `Any`: null, an integer, another finite number by its shortest decimal text, a text, or
-- a JSON value of another type with its truth value.
pub data Value : Type 0 where
  null : Value
  int : ℤ → Value
  float : Decimal → Value
  str : Text → Value
  other : (truthy : Bool) → Value

abbrev pub Dict : Type 0
Dict = List (Text × Value)

-- `d[k] = v`: the entry keeps its place.
unfoldable pub put : Text → Value → Dict → Dict
put k v [] = (k, v) ∷ []
put k v ((j, w) ∷ d) = if text_eq j k then (j, v) ∷ d else (j, w) ∷ put k v d

-- `d.get(k)`, where the absent key and the null value are one.
unfoldable pub get : Text → Dict → Value
get k [] = null
get k ((j, v) ∷ d) = if text_eq j k then v else get k d

-- The value of a key that is there.
unfoldable pub lookup : Text → Dict → Option Value
lookup k [] = none
lookup k ((j, v) ∷ d) = if text_eq j k then some v else lookup k d

-- `d.get(k, default)`
abbrev pub get_or : Text → Value → Dict → Value
get_or k default d = elim (lookup k d) [ none ↦ default | some v ↦ v ]

-- What `response.json()` makes of a body: an object, another JSON value, or an error.
pub data Body : Type 0 where
  object : Dict → Body
  scalar : Body
  malformed : Body

pub get-put :
    (k j : Text) (v : Value) (d : Dict) → get k (put j v d) ≡ (if text_eq j k then v else get k d)
unfolding get put
get-put k j v [] = refl
get-put k j v ((i, w) ∷ d) =
    ground (arith, get-put k j v d, text_eq_iff i k, text_eq_iff j k, text_eq_iff i j)

-- A key that is missing reads as null.
pub get-lookup : (k : Text) (d : Dict) → get k d ≡ elim (lookup k d) [ none ↦ null | some v ↦ v ]
unfolding get lookup
get-lookup k [] = refl
get-lookup k ((j, v) ∷ d) = ground (arith, get-lookup k d)

pub lookup-put :
    (k j : Text) (v : Value) (d : Dict)
    → lookup k (put j v d) ≡ (if text_eq j k then some v else lookup k d)
unfolding lookup put
lookup-put k j v [] = refl
lookup-put k j v ((i, w) ∷ d) =
    ground (arith, lookup-put k j v d, text_eq_iff i k, text_eq_iff j k, text_eq_iff i j)
