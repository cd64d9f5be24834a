-- ===== src/Pagination/Sample.antt =====
-- A concrete codec, whose texts are the values themselves.
use kupio_backend.Base.{
  ℕ, ◌-◌, ◌≡◌, refl, Bool, true, false, some, List, [], ◌∷◌, Bool-cases, inl, inr, arith, ◌==◌,
  if◌then◌else◌,
}
use kupio_backend.Core.Errors.{type_error, value_error, attribute_error}
use kupio_backend.Core.Action.{Result, ok, err}
use kupio_backend.Pagination.Cursors.{Codec, IsCodec, Field, Datetime, naive, lookup, number_of}

pub data Json : Type 0 where
  number : ℕ → Json
  text_of_time : ℕ → Json
  text_of_uuid : ℕ → Json
  no_items : Json
  with_item : Field → Json → Json → Json

abbrev dict : List (Field × Json) → Json
dict [] = no_items
dict ((f, v) ∷ rest) = with_item f v (dict rest)

abbrev has : Field → Json → Result Bool
has f no_items = ok false
has f (with_item g v rest) =
    let later = has f rest in if number_of g == number_of f then ok true else later
has f (number n) = err type_error
has f (text_of_time t) = ok false
has f (text_of_uuid i) = ok false

abbrev item : Field → Json → Result Json
item f no_items = err value_error
item f (with_item g v rest) =
    let later = item f rest in if number_of g == number_of f then ok v else later
item f (number n) = err type_error
item f (text_of_time t) = err type_error
item f (text_of_uuid i) = err type_error

abbrev fromisoformat : Json → Result Datetime
fromisoformat (text_of_time t) = ok (naive t)
fromisoformat (text_of_uuid i) = err value_error
fromisoformat (number n) = err type_error
fromisoformat no_items = err type_error
fromisoformat (with_item f v rest) = err type_error

abbrev uuid : Json → Result ℕ
uuid (text_of_uuid i) = ok i
uuid (text_of_time t) = err value_error
uuid (number n) = err attribute_error
uuid no_items = err attribute_error
uuid (with_item f v rest) = err attribute_error

abbrev int : Json → Result ℕ
int (number n) = ok n
int (text_of_time t) = err value_error
int (text_of_uuid i) = err value_error
int no_items = err type_error
int (with_item f v rest) = err type_error

abbrev pub codec : Codec Json Json
codec = record {
  truthy = λ t. true;
  loads = ok;
  dumps = λ v. v;
  dict = dict;
  has = has;
  item = item;
  isoformat = text_of_time;
  fromisoformat = fromisoformat;
  to_utc = λ t zone. ok (t - zone);
  str_uuid = text_of_uuid;
  uuid = uuid;
  number = number;
  int = int;
}

has-lookup :
    (f : Field) (v : Json) (fields : List (Field × Json))
    → lookup f fields ≡ some v
    → has f (dict fields) ≡ ok true
has-lookup f v [] h = cc
has-lookup f v ((g, w) ∷ rest) h = elim (Bool-cases (number_of g == number_of f)) [
  | inl here ↦ rw here refl
  | inr other ↦ rw other (has-lookup f v rest (ground (arith, h)))
]

item-lookup :
    (f : Field) (v : Json) (fields : List (Field × Json))
    → lookup f fields ≡ some v
    → item f (dict fields) ≡ ok v
item-lookup f v [] h = cc
item-lookup f v ((g, w) ∷ rest) h = elim (Bool-cases (number_of g == number_of f)) [
  | inl here ↦ rw here (ground (arith, h))
  | inr other ↦ rw other (item-lookup f v rest (ground (arith, h)))
]

pub codec-IsCodec : IsCodec codec
codec-IsCodec = record {
  truthy-dumps = λ d. refl;
  loads-dumps = λ fields. refl;
  has-dict = has-lookup;
  item-dict = item-lookup;
  fromisoformat-isoformat = λ t. refl;
  uuid-str_uuid = λ i. refl;
  int-number = λ n. refl;
}
