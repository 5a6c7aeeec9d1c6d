-- ===== src/Schemas/Callback.antt =====
-- app/schemas/stk.py: the callback envelope and `STKCallbackBody`; app/services/stk.py,
-- `_parse_daraja_transaction_date`.

use daraja_payment_wrapper.Prelude.{
  ◌∙◌, ap, ℕ, Text, text_eq, ◌≡◌, refl, Bool, Option, none, some, List, [], ◌∷◌, if◌then◌else◌,
  zero,
}
use daraja_payment_wrapper.Prelude.Int.{ℤ, pos, int_eq, show_int}
use daraja_payment_wrapper.Errors.{Result, ok, err, value_error}
use daraja_payment_wrapper.Json.{Value, null, int, str, Dict, put, get, get-put}

pub record CallbackMetadataItem : Type 0 where
  pub name : Text
  pub value : Value

pub record StkCallbackBody : Type 0 where
  pub merchant_request_id : Text
  pub checkout_request_id : Text
  pub result_code : ℤ
  pub result_desc : Text
  pub callback_metadata : Option (List CallbackMetadataItem)

to_dict_from : Dict → List CallbackMetadataItem → Dict
to_dict_from d [] = d
to_dict_from d (item ∷ items) = to_dict_from (put item.name item.value d) items

-- `{item.Name: item.Value for item in self.Item}`
unfoldable pub to_dict : List CallbackMetadataItem → Dict
unfolding to_dict_from
to_dict = to_dict_from []

abbrev pub is_success : StkCallbackBody → Bool
is_success body = int_eq body.result_code (pos 0)

unfoldable pub extract_payment_details : StkCallbackBody → Result Dict
extract_payment_details body =
    if is_success body
    then (elim body.callback_metadata [ none ↦ ok [] | some items ↦ ok (to_dict items) ])
    else err value_error

-- The value of the last item of a name, null if there is none.
abbrev pub last_value : Text → Value → List CallbackMetadataItem → Value
last_value k v [] = v
last_value k v (item ∷ items) = last_value k (if text_eq item.name k then item.value else v) items

get-to_dict_from :
    (k : Text) (d : Dict) (items : List CallbackMetadataItem)
    → get k (to_dict_from d items) ≡ last_value k (get k d) items
unfolding to_dict_from
get-to_dict_from k d [] = refl
get-to_dict_from k d (item ∷ items) =
    get-to_dict_from k (put item.name item.value d) items
    ∙ ap (λ v. last_value k v items) (get-put k item.name item.value d)

-- The dictionary holds, under each name, the value of the last item of that name.
pub get-to_dict :
    (k : Text) (items : List CallbackMetadataItem) → get k (to_dict items) ≡ last_value k null items
unfolding to_dict get
get-to_dict k items = get-to_dict_from k [] items

-- `_parse_daraja_transaction_date`. `strptime` reads the format `%Y%m%d%H%M%S` of Python's library;
-- it knows no date in the text of a value that is no integer and no text.
unfoldable pub parse_daraja_transaction_date : (Text → Option ℕ) → Value → Option ℕ
parse_daraja_transaction_date strptime (int (pos zero)) = none
parse_daraja_transaction_date strptime (int n) = strptime (show_int n)
parse_daraja_transaction_date strptime (str []) = none
parse_daraja_transaction_date strptime (str s) = strptime s
parse_daraja_transaction_date strptime _ = none
