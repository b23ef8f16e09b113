-- ===== src/Navigation/Query.antt =====
-- `encode_query` of navigation.cpp.
use vant.Prelude.{
  ℕ, ◌+◌, ◌-◌, ◌*◌, ◌<◌, ◌≡◌, refl, ap, ◌∙◌, true, ◌||◌, [], ◌∷◌, ◌++◌, arith, ltb, ◌==◌,
  if◌then◌else◌, Bytes, All, All-append,
}
use vant.Strings.{is_alnum}
use vant.Navigation.{encode_byte, encode_query}

-- The bytes that may stand in an encoded query.
abbrev pub IsQueryByte : ℕ → Type 0
IsQueryByte c =
    (is_alnum c || c == b'-' || c == b'_' || c == b'.' || c == b'~' || c == b'+' || c == b'%')
    ≡ true

encode_byte-IsQueryByte : (c : ℕ) → c < 256 → All IsQueryByte (encode_byte c)
unfolding encode_byte is_alnum
encode_byte-IsQueryByte c h = ground arith

abbrev pub IsByte : ℕ → Type 0
IsByte c = c < 256

-- Whatever bytes the input has, nothing in the encoded query can end it: no `&`, `#`, space, quote.
pub encode_query-IsQueryByte : (s : Bytes) → All IsByte s → All IsQueryByte (encode_query s)
unfolding encode_query
encode_query-IsQueryByte [] h = tt
encode_query-IsQueryByte (c ∷ s) (h, hs) =
    All-append IsQueryByte (encode_byte c) (encode_query s) (encode_byte-IsQueryByte c h)
      (encode_query-IsQueryByte s hs)

-- The value of an upper-case hexadecimal digit.
unfoldable pub digit_value : ℕ → ℕ
digit_value d = if ltb d b'A' then d - b'0' else d - b'A' + 10

-- The reading of a query that servers use: `+` is a space and `%XX` a byte.
unfoldable pub decode_query : Bytes → Bytes
unfolding digit_value
decode_query [] = []
decode_query (c ∷ []) = (if c == b'+' then b' ' else c) ∷ []
decode_query (c ∷ d ∷ []) = (if c == b'+' then b' ' else c) ∷ decode_query (d ∷ [])
decode_query (c ∷ d ∷ e ∷ s) =
    let escaped = decode_query s in
    let plain = decode_query (d ∷ e ∷ s) in
    if c == b'%'
    then (digit_value d * 16 + digit_value e) ∷ escaped
    else (if c == b'+' then b' ' else c) ∷ plain

decode-encode_byte :
    (c : ℕ) (s : Bytes) → c < 256 → decode_query (encode_byte c ++ s) ≡ c ∷ decode_query s
unfolding decode_query encode_byte
decode-encode_byte c [] h = ground arith
decode-encode_byte c (d ∷ []) h = ground arith
decode-encode_byte c (d ∷ e ∷ s) h = ground arith

-- Decoding the encoded query gives the input back, byte for byte.
pub decode-encode_query : (s : Bytes) → All IsByte s → decode_query (encode_query s) ≡ s
unfolding encode_query
decode-encode_query [] h = unfold decode_query in refl
decode-encode_query (c ∷ s) (h, hs) =
    decode-encode_byte c (encode_query s) h ∙ ap (◌∷◌ c) (decode-encode_query s hs)
