-- ===== src/Pagination/RoundTrips.antt =====
-- That every cursor the service hands out is read back as it was written (src/core/utils/pagination.py).
use kupio_backend.Base.{ℕ, ◌≡◌, refl, some}
use kupio_backend.Core.Action.{ok}
use kupio_backend.Pagination.Cursors.{
  Codec, IsCodec, created_at, id, rank, price, decode_cursor, decode_int_cursor, encode_cursor,
  encode_int_cursor, encode_ranked_cursor, encode_ranked_price_cursor, decode_ranked_cursor,
  decode_ranked_price_cursor, decode_cursor_payload, normalize_cursor_datetime, cursor_fields,
  ranked_fields, ranked_price_fields,
}

module _ {Text J : Type 0} (lib : Codec Text J) (sound : IsCodec lib) where
  -- A cursor for a creation time and a UUID is decoded to that time and UUID.
  pub decode_cursor-encode_cursor :
      (t i : ℕ) → decode_cursor lib (encode_cursor lib t i) ≡ ok (some t, some i)
  unfolding decode_cursor encode_cursor decode_cursor_payload normalize_cursor_datetime
  decode_cursor-encode_cursor t i =
      let fields = cursor_fields lib t (lib.str_uuid i) in
      rw
        (
          sound.loads-dumps fields,
          sound.has-dict created_at (lib.isoformat t) fields refl,
          sound.has-dict id (lib.str_uuid i) fields refl,
          sound.item-dict created_at (lib.isoformat t) fields refl,
          sound.item-dict id (lib.str_uuid i) fields refl,
          sound.fromisoformat-isoformat t,
          sound.uuid-str_uuid i,
        )
        refl

  pub decode_int_cursor-encode_int_cursor :
      (t i : ℕ) → decode_int_cursor lib (encode_int_cursor lib t i) ≡ ok (some t, some i)
  unfolding decode_int_cursor encode_int_cursor decode_cursor_payload normalize_cursor_datetime
  decode_int_cursor-encode_int_cursor t i =
      let fields = cursor_fields lib t (lib.number i) in
      rw
        (
          sound.loads-dumps fields,
          sound.has-dict created_at (lib.isoformat t) fields refl,
          sound.has-dict id (lib.number i) fields refl,
          sound.item-dict created_at (lib.isoformat t) fields refl,
          sound.item-dict id (lib.number i) fields refl,
          sound.fromisoformat-isoformat t,
          sound.int-number i,
        )
        refl

  decode_ranked_cursor-encode_ranked_cursor :
      (n t i : ℕ)
      → decode_ranked_cursor lib (encode_ranked_cursor lib n t i) ≡ ok (some n, some t, some i)
  unfolding decode_ranked_cursor encode_ranked_cursor decode_cursor_payload
      normalize_cursor_datetime
  decode_ranked_cursor-encode_ranked_cursor n t i =
      let fields = ranked_fields lib n t i in
      rw
        (
          sound.loads-dumps fields,
          sound.has-dict created_at (lib.isoformat t) fields refl,
          sound.has-dict id (lib.str_uuid i) fields refl,
          sound.has-dict rank (lib.number n) fields refl,
          sound.item-dict rank (lib.number n) fields refl,
          sound.int-number n,
          sound.item-dict created_at (lib.isoformat t) fields refl,
          sound.fromisoformat-isoformat t,
          sound.item-dict id (lib.str_uuid i) fields refl,
          sound.uuid-str_uuid i,
        )
        refl

  decode_ranked_price_cursor-encode_ranked_price_cursor :
      (n a i : ℕ)
      → decode_ranked_price_cursor lib (encode_ranked_price_cursor lib n a i)
        ≡ ok (some n, some a, some i)
  unfolding decode_ranked_price_cursor encode_ranked_price_cursor
  decode_ranked_price_cursor-encode_ranked_price_cursor n a i =
      let fields = ranked_price_fields lib n a i in
      rw
        (
          sound.loads-dumps fields,
          sound.has-dict rank (lib.number n) fields refl,
          sound.has-dict price (lib.number a) fields refl,
          sound.has-dict id (lib.str_uuid i) fields refl,
          sound.item-dict rank (lib.number n) fields refl,
          sound.int-number n,
          sound.item-dict price (lib.number a) fields refl,
          sound.int-number a,
          sound.item-dict id (lib.str_uuid i) fields refl,
          sound.uuid-str_uuid i,
        )
        refl

  -- Each of the four kinds of cursor is decoded to what it was encoded from: a creation time with a
  -- UUID or an integer, a rank with a creation time and a UUID, a rank with a price and a UUID.
  pub cursors-read_back :
      (n t i : ℕ)
      → (decode_cursor lib (encode_cursor lib t i) ≡ ok (some t, some i))
        × (decode_int_cursor lib (encode_int_cursor lib t i) ≡ ok (some t, some i))
        × (decode_ranked_cursor lib (encode_ranked_cursor lib n t i) ≡ ok (some n, some t, some i))
        × (decode_ranked_price_cursor lib (encode_ranked_price_cursor lib n t i)
            ≡ ok (some n, some t, some i))
  cursors-read_back n t i = (
    decode_cursor-encode_cursor t i,
    decode_int_cursor-encode_int_cursor t i,
    decode_ranked_cursor-encode_ranked_cursor n t i,
    decode_ranked_price_cursor-encode_ranked_price_cursor n t i,
  )
