-- ===== src/Rpc/Tests.antt =====
-- The request of src/agent_rpc.cpp at concrete parameters.
use vant.Prelude.{◌≡◌, refl, some, codes, [], ◌∷◌, Bytes, bytes_eq}
use vant.Strings.{is_space, is_empty, find_text, cut, starts_with}
use vant.Json.{json_string, json_escape, escape_byte}
use vant.Rpc.Objects.{Pairs, json_param_string_object}
use vant.Rpc.Objects.RoundTrip.{texts, json_param_string_object-print}
use vant.Rpc.{field, locate, read_value, value_text, drop_spaces, skip_spaces}
use vant.Rpc.Values.{object, print, print_members, separated_members}

-- Two headers among the parameters of a fetch.
abbrev headers : Pairs
headers = (codes "Accept", codes "a/b, \"c\"") ∷ (codes "X", codes "{}") ∷ []

abbrev fetched : Bytes
fetched =
    codes
      "{\"url\":\"u\",\"headers\" : {\"Accept\":\"a/b, \\\"c\\\"\",\"X\":\"{}\"} , \"body\":\"\"}"

field-headers : field fetched (codes "headers") ≡ some (print (object (texts headers)))
unfolding field locate read_value value_text drop_spaces skip_spaces is_space is_empty find_text cut
    starts_with print print_members separated_members json_string json_escape escape_byte bytes_eq
field-headers = refl

json_param_string_object-print_example :
    json_param_string_object fetched (codes "headers") ≡ some headers
json_param_string_object-print_example =
    json_param_string_object-print fetched (codes "headers") headers field-headers
