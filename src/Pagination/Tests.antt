-- ===== src/Pagination/Tests.antt =====
-- A cursor of each kind
use kupio_backend.Base.{◌≡◌, some}
use kupio_backend.Core.Action.{ok}
use kupio_backend.Pagination.Cursors.{
  decode_cursor, encode_cursor, decode_int_cursor, encode_int_cursor, decode_ranked_cursor,
  encode_ranked_cursor, decode_ranked_price_cursor, encode_ranked_price_cursor,
}
use kupio_backend.Pagination.RoundTrips.{cursors-read_back}
use kupio_backend.Pagination.Sample.{codec, codec-IsCodec}

cursors-read_back_example :
    (decode_cursor codec (encode_cursor codec 40 7) ≡ ok (some 40, some 7))
    × (decode_int_cursor codec (encode_int_cursor codec 40 7) ≡ ok (some 40, some 7))
    × (decode_ranked_cursor codec (encode_ranked_cursor codec 2 40 7)
        ≡ ok (some 2, some 40, some 7))
    × (decode_ranked_price_cursor codec (encode_ranked_price_cursor codec 2 40 7)
        ≡ ok (some 2, some 40, some 7))
cursors-read_back_example = cursors-read_back codec codec-IsCodec 2 40 7
