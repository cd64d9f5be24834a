-- ===== src/Pagination/Cursors.antt =====
-- src/core/utils/pagination.py: the texts that clients hand back. JSON, base64, UUIDs and dates are
-- Python's: a parameter, with what the decoders ask of it.
use kupio_backend.Base.{
  ℕ, ◌≡◌, Bool, true, false, Option, none, some, List, [], ◌∷◌, ◌==◌, if◌then◌else◌,
}
use kupio_backend.Core.Errors.{type_error, value_error}
use kupio_backend.Core.Action.{Result, ok, err}

-- The keys of the objects that cursors encode
pub data Field : Type 0 where
  created_at id rank price : Field

abbrev pub number_of : Field → ℕ
number_of created_at = 0
number_of id = 1
number_of rank = 2
number_of price = 3

-- The value of a key in a dict
abbrev pub lookup {ℓ} : {J : Type ℓ} → Field → List (Field × J) → Option J
lookup f [] = none
lookup f ((g, v) ∷ rest) = if number_of g == number_of f then some v else lookup f rest

-- What `datetime.fromisoformat` returns: a naive time, or one with a `tzinfo`
pub data Datetime : Type 0 where
  naive : ℕ → Datetime
  aware : ℕ → ℕ → Datetime

-- `Text` are the cursors, `J` the values that `json.loads` returns.
pub record Codec (Text J : Type 0) : Type 0 where
  -- Whether the text is not empty
  pub truthy : Text → Bool
  -- `json.loads(base64.urlsafe_b64decode(cursor))`
  pub loads : Text → Result J
  -- `base64.urlsafe_b64encode(json.dumps(data).encode()).decode()`
  pub dumps : J → Text
  pub dict : List (Field × J) → J
  -- `field in data` and `data[field]`
  pub has : Field → J → Result Bool
  pub item : Field → J → Result J
  pub isoformat : ℕ → J
  pub fromisoformat : J → Result Datetime
  -- `value.astimezone(datetime.UTC).replace(tzinfo=None)`
  pub to_utc : ℕ → ℕ → Result ℕ
  -- `str(_id)` and `UUID(value)`
  pub str_uuid : ℕ → J
  pub uuid : J → Result ℕ
  pub number : ℕ → J
  pub int : J → Result ℕ

-- What the library documents: a dict has its keys and survives a round trip through its text, which is
-- not empty, and so does a naive time, a UUID and an integer.
pub record IsCodec {Text J : Type 0} (lib : Codec Text J) : Type 0 where
  pub truthy-dumps : (d : J) → lib.truthy (lib.dumps d) ≡ true
  pub loads-dumps :
      (fields : List (Field × J)) → lib.loads (lib.dumps (lib.dict fields)) ≡ ok (lib.dict fields)
  pub has-dict :
      (f : Field) (v : J) (fields : List (Field × J))
      → lookup f fields ≡ some v
      → lib.has f (lib.dict fields) ≡ ok true
  pub item-dict :
      (f : Field) (v : J) (fields : List (Field × J))
      → lookup f fields ≡ some v
      → lib.item f (lib.dict fields) ≡ ok v
  pub fromisoformat-isoformat : (t : ℕ) → lib.fromisoformat (lib.isoformat t) ≡ ok (naive t)
  pub uuid-str_uuid : (i : ℕ) → lib.uuid (lib.str_uuid i) ≡ ok i
  pub int-number : (n : ℕ) → lib.int (lib.number n) ≡ ok n

module _ {ℓ κ} {A : Type ℓ} {B : Type κ} where
  infixl 10 ◌>>=◌
  abbrev ◌>>=◌ : Result A → (A → Result B) → Result B
  ◌>>=◌ (ok a) f = f a
  ◌>>=◌ (err e) f = err e

-- `try: … except TypeError, ValueError: return None`; `binascii.Error` is a `ValueError`.
abbrev except_bad_value {ℓ} : {A : Type ℓ} → Result A → Result (Option A)
except_bad_value (err type_error) = ok none
except_bad_value (err value_error) = ok none
except_bad_value (err e) = err e
except_bad_value (ok a) = ok (some a)

-- `if … is None: return None`, with the None of the caller
abbrev or_return {ℓ κ} : {A : Type ℓ} → {B : Type κ} → Option A → B → (A → Result B) → Result B
or_return none b f = ok b
or_return (some a) b f = f a

module _ {Text J : Type 0} (lib : Codec Text J) where
  -- `first in data and second in data`
  abbrev has_both : Field → Field → J → Result Bool
  has_both first second data_ = do
    one ← lib.has first data_
    if one then lib.has second data_ else ok false

  unfoldable pub decode_cursor_payload : Text → Result (Option J)
  decode_cursor_payload cursor = do
    found ← except_bad_value (lib.loads cursor)
    or_return found none λ data_. do
      complete ← has_both created_at id data_
      ok (if complete then some data_ else none)

  abbrev without_tzinfo : Datetime → Result (Option ℕ)
  without_tzinfo (naive t) = ok (some t)
  without_tzinfo (aware t zone) = do utc ← lib.to_utc t zone; ok (some utc)

  unfoldable pub normalize_cursor_datetime : J → Result (Option ℕ)
  normalize_cursor_datetime value = do
    parsed ← except_bad_value (lib.fromisoformat value)
    or_return parsed none without_tzinfo

  abbrev nothing : Option ℕ × Option ℕ
  nothing = (none, none)

  -- The body that `decode_cursor` and `decode_int_cursor` share, up to how the id is parsed
  abbrev decode_with : (J → Result ℕ) → Text → Result (Option ℕ × Option ℕ)
  decode_with parse cursor = do
    found ← decode_cursor_payload cursor
    or_return found nothing λ data_. do
      value ← lib.item created_at data_
      parsed ← normalize_cursor_datetime value
      or_return parsed nothing λ t. do
        cursor_id ← except_bad_value (lib.item id data_ >>= parse)
        or_return cursor_id nothing λ i. ok (some t, some i)

  unfoldable pub decode_cursor : Text → Result (Option ℕ × Option ℕ)
  decode_cursor = decode_with lib.uuid

  unfoldable pub decode_int_cursor : Text → Result (Option ℕ × Option ℕ)
  decode_int_cursor = decode_with lib.int

  abbrev pub cursor_fields : ℕ → J → List (Field × J)
  cursor_fields t i = (created_at, lib.isoformat t) ∷ (id, i) ∷ []

  -- A time stands for itself without a time zone, in UTC, as the columns hold it.
  unfoldable pub encode_cursor : ℕ → ℕ → Text
  encode_cursor t i = lib.dumps (lib.dict (cursor_fields t (lib.str_uuid i)))

  unfoldable pub encode_int_cursor : ℕ → ℕ → Text
  encode_int_cursor t i = lib.dumps (lib.dict (cursor_fields t (lib.number i)))

  -- `decode(cursor) if cursor else (None, None)`
  unfoldable pub read_cursor :
      (Text → Result (Option ℕ × Option ℕ)) → Option Text → Result (Option ℕ × Option ℕ)
  read_cursor decode none = ok nothing
  read_cursor decode (some cursor) = if lib.truthy cursor then decode cursor else ok nothing

  abbrev pub ranked_fields : ℕ → ℕ → ℕ → List (Field × J)
  ranked_fields n t i =
      (rank, lib.number n) ∷ (created_at, lib.isoformat t) ∷ (id, lib.str_uuid i) ∷ []

  unfoldable pub encode_ranked_cursor : ℕ → ℕ → ℕ → Text
  encode_ranked_cursor n t i = lib.dumps (lib.dict (ranked_fields n t i))

  abbrev none_of_three : Option ℕ × Option ℕ × Option ℕ
  none_of_three = (none, none, none)

  unfoldable pub decode_ranked_cursor : Text → Result (Option ℕ × Option ℕ × Option ℕ)
  decode_ranked_cursor cursor = do
    found ← decode_cursor_payload cursor
    or_return found none_of_three λ data_. do
      ranked ← lib.has rank data_
      or_return (if ranked then some data_ else none) none_of_three λ ranked_data. do
        read_rank ← except_bad_value (lib.item rank ranked_data >>= lib.int)
        or_return read_rank none_of_three λ n. do
          value ← lib.item created_at ranked_data
          parsed ← normalize_cursor_datetime value
          or_return parsed none_of_three λ t. do
            cursor_id ← except_bad_value (lib.item id ranked_data >>= lib.uuid)
            or_return cursor_id none_of_three λ i. ok (some n, some t, some i)

  abbrev pub ranked_price_fields : ℕ → ℕ → ℕ → List (Field × J)
  ranked_price_fields n amount i =
      (rank, lib.number n) ∷ (price, lib.number amount) ∷ (id, lib.str_uuid i) ∷ []

  unfoldable pub encode_ranked_price_cursor : ℕ → ℕ → ℕ → Text
  encode_ranked_price_cursor n amount i = lib.dumps (lib.dict (ranked_price_fields n amount i))

  -- The last `try` of `decode_ranked_price_cursor`
  abbrev read_three : J → Result (ℕ × ℕ × ℕ)
  read_three data_ = do
    n ← lib.item rank data_ >>= lib.int
    amount ← lib.item price data_ >>= lib.int
    i ← lib.item id data_ >>= lib.uuid
    ok (n, amount, i)

  unfoldable pub decode_ranked_price_cursor : Text → Result (Option ℕ × Option ℕ × Option ℕ)
  decode_ranked_price_cursor cursor = do
    found ← except_bad_value (lib.loads cursor)
    or_return found none_of_three λ data_. do
      first_two ← has_both rank price data_
      complete ← if first_two then lib.has id data_ else ok false
      or_return (if complete then some data_ else none) none_of_three λ whole. do
        three ← except_bad_value (read_three whole)
        or_return three none_of_three λ (n, amount, i). ok (some n, some amount, some i)
