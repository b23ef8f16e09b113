-- ===== src/Json/Tests.antt =====
-- Runs of the string literals, and their theorems at concrete texts.
use vant.Prelude.{◌≡◌, refl, [], ◌∷◌, ◌++◌, some, none, Bytes, codes}
use vant.Json.{json_string, json_escape, escape_byte, read_json_string}
use vant.Json.RoundTrip.{read-json_string}

abbrev sample : Bytes
sample = codes "a\"b" ++ (10 ∷ 1 ∷ [])

json_string-sample : json_string sample ≡ codes "\"a\\\"b\\n\\u0001\""
unfolding json_string json_escape escape_byte
json_string-sample = refl

-- A two-byte code point, and a literal that ends inside an escape.
read-e_acute : read_json_string (codes "\"\\u00e9\"") ≡ some (0xC3 ∷ 0xA9 ∷ [], [])
unfolding read_json_string
read-e_acute = refl

read-cut : read_json_string (codes "\"\\u00") ≡ none
unfolding read_json_string
read-cut = refl

read-json_string_example :
    read_json_string (json_string sample ++ codes ",") ≡ some (sample, codes ",")
read-json_string_example = read-json_string sample (codes ",")
