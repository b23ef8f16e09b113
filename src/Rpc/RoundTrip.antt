-- ===== src/Rpc/RoundTrip.antt =====
-- src/agent_rpc.cpp: what the command line writes as a request is what the server reads.
use vant.Prelude.{
  ℕ, ◌≡◌, ◌∙◌, refl, ap, false, [], ◌∷◌, ◌++◌, append-nil, some, arith, Bytes, codes,
}
use vant.Strings.{is_space, is_empty, starts_with, find_text, cut, contains}
use vant.Json.{escape_byte, json_escape, json_string}
use vant.Json.RoundTrip.{read-json_string}
use vant.Rpc.{
  value_text, skip_spaces, drop_spaces, text_of_string, locate, read_value, value_at, field,
  parse_request, request_json,
}
use vant.Rpc.Fields.{IsKey, keyed, string-keyed, Misses, passed_prefix}
use vant.Rpc.Values.{Members, object, print, print_members, IsSound, scan-print}

-- A literal is read as its text.
pub read_value-literal : (s rest : Bytes) → value_at (some (json_string s ++ rest)) ≡ some s
unfolding skip_spaces is_space read_value json_string
read_value-literal s rest = ap text_of_string (read-json_string s rest)

is_empty-end : (s : Bytes) (c : ℕ) → is_empty (s ++ c ∷ []) ≡ false
unfolding is_empty
is_empty-end [] c = refl
is_empty-end (x ∷ s) c = refl

-- What ends in no space has none to drop.
drop_spaces-end : (s : Bytes) (c : ℕ) → is_space c ≡ false → drop_spaces (s ++ c ∷ []) ≡ s ++ c ∷ []
unfolding drop_spaces
drop_spaces-end [] c h = ground (arith, h)
drop_spaces-end (x ∷ s) c h = ground (arith, drop_spaces-end s c h, is_empty-end s c)

-- An object that a closing brace follows is read as it stands.
pub read_value-object :
    (members : Members) (rest : Bytes)
    → IsSound (object members)
    → value_at (some (print (object members) ++ b'}' ∷ rest)) ≡ some (print (object members))
unfolding skip_spaces is_space read_value print value_text
read_value-object members rest h =
    let inner = b'{' ∷ print_members members in
    ap (λ (t : Bytes). some (drop_spaces t))
      ((scan-print 0 (object members) h).scan (b'}' ∷ rest) ∙ append-nil (print (object members)))
    ∙ ap (λ (t : Bytes). some t) (drop_spaces-end inner b'}' refl)

-- The command line's request behind its id, and the whole, with any text behind its brace.
abbrev behind_id : Bytes → Bytes → Bytes → Bytes
behind_id method params rest =
    codes ",\"method\":"
    ++ (json_string method ++ (codes ",\"params\":" ++ (params ++ b'}' ∷ rest)))

abbrev pub asked : Bytes → Bytes → Bytes → Bytes
asked method params rest =
    codes "{\"version\":1,\"id\":" ++ (json_string (codes "cli") ++ behind_id method params rest)

locate-id :
    (method params rest : Bytes)
    → locate (asked method params rest) (codes "id")
      ≡ some (json_string (codes "cli") ++ behind_id method params rest)
unfolding locate find_text starts_with cut
locate-id method params rest = refl

locate-method :
    (method params rest : Bytes)
    → locate (asked method params rest) (codes "method")
      ≡ some (json_string method ++ (codes ",\"params\":" ++ (params ++ b'}' ∷ rest)))
unfolding locate find_text starts_with cut json_string json_escape escape_byte
locate-method method params rest = refl

params-IsKey : IsKey (codes "params")
unfolding contains starts_with
params-IsKey = record { bytes = ground arith; no_colon = refl; no_comma = λ s. refl }

-- The request in front of the method's literal.
abbrev front : Bytes
front = codes "{\"version\":1,\"id\":\"cli\",\"method\":"

front-Misses : (t : Bytes) → Misses (codes "params") front t
unfolding starts_with
front-Misses t = ground arith

locate-params :
    (method params rest : Bytes)
    → locate (asked method params rest) (codes "params") ≡ some (params ++ b'}' ∷ rest)
unfolding locate json_string json_escape escape_byte
locate-params method params rest =
    let t = json_string method ++ keyed (codes "params") (params ++ b'}' ∷ rest) in
    passed_prefix (codes "params") front t (front-Misses t)
    ∙ string-keyed (codes "params") method (params ++ b'}' ∷ rest) params-IsKey

pub parse_request-asked :
    (method : Bytes) (members : Members) (rest : Bytes)
    → IsSound (object members)
    → parse_request (asked method (print (object members)) rest)
      ≡ some (record { id = codes "cli"; method = method; params_json = print (object members) })
unfolding parse_request field
parse_request-asked method members rest h =
    let params = print (object members) in
    rw
      (
        locate-id method params rest,
        locate-method method params rest,
        locate-params method params rest,
        read_value-literal (codes "cli") (behind_id method params rest),
        read_value-literal method (codes ",\"params\":" ++ (params ++ b'}' ∷ rest)),
        read_value-object members rest h,
      )
      refl

-- A request that the command line writes, for any method and for parameters that are an object of
-- JSON, is read by the server as it was meant.
pub parse_request-request_json :
    (method : Bytes) (members : Members)
    → IsSound (object members)
    → parse_request (request_json (codes "cli") method (print (object members)))
      ≡ some (record { id = codes "cli"; method = method; params_json = print (object members) })
unfolding request_json
parse_request-request_json method members h = parse_request-asked method members (b'\n' ∷ []) h
