-- ===== src/Rpc.antt =====
-- src/agent_rpc.cpp: the requests and replies of the agent protocol, and the search for a field that
-- reads them. The search's index is the text that is left.
pub mod Fields
pub mod Values
pub mod Printed
pub mod RoundTrip
pub mod Numbers
pub mod Objects
pub mod Tests
use vant.Prelude.{
  ℕ, zero, suc, ◌+◌, ◌-◌, ◌*◌, ◌^◌, Bool, true, false, not, ◌&&◌, ◌||◌, List, [], ◌∷◌, ◌++◌, Option,
  none, some, ltb, leb, ◌==◌, if◌then◌else◌, Bytes, codes, bytes_eq, length, ℤ, pos, negate,
}
use vant.Json.{json_string, read_json_string}
use vant.Strings.{within, is_empty, is_space, cut, find_text, ends_with_byte}

pub record AgentRequest : Type 0 where
  pub id : Bytes
  pub method : Bytes
  pub params_json : Bytes

-- Where the scan of a value is: outside a string, in one, or behind a backslash there.
pub data ScanMode : Type 0 where
  outside quoted escaped : ScanMode

abbrev is_opening : ℕ → Bool
is_opening c = c == b'{' || c == b'['

abbrev is_closing : ℕ → Bool
is_closing c = c == b'}' || c == b']'

abbrev pub next_mode : ScanMode → ℕ → ScanMode
next_mode ScanMode.outside c = if c == b'"' then ScanMode.quoted else ScanMode.outside
next_mode ScanMode.quoted c =
    if c == b'\\' then ScanMode.escaped else if c == b'"' then ScanMode.outside else ScanMode.quoted
next_mode ScanMode.escaped c = ScanMode.quoted

abbrev pub next_depth : ScanMode → ℕ → ℕ → ℕ
next_depth ScanMode.outside c depth =
    if is_opening c then depth + 1 else if is_closing c then depth - 1 else depth
next_depth ScanMode.quoted c depth = depth
next_depth ScanMode.escaped c depth = depth

abbrev pub ends_value : ScanMode → ℕ → ℕ → Bool
ends_value ScanMode.outside c depth = (is_closing c || c == b',') && depth == 0
ends_value ScanMode.quoted c depth = false
ends_value ScanMode.escaped c depth = false

unfoldable pub value_text : ScanMode → ℕ → Bytes → Bytes
value_text mode depth [] = []
value_text mode depth (c ∷ s) =
    let rest = value_text (next_mode mode c) (next_depth mode c depth) s in
    if ends_value mode c depth then [] else c ∷ rest

unfoldable pub skip_spaces : Bytes → Bytes
unfolding is_space
skip_spaces [] = []
skip_spaces (c ∷ s) = let rest = skip_spaces s in if is_space c then rest else c ∷ s

unfoldable pub drop_spaces : Bytes → Bytes
unfolding is_space
drop_spaces [] = []
drop_spaces (c ∷ s) =
    let rest = drop_spaces s in if is_space c && is_empty rest then [] else c ∷ rest

abbrev pub needle_of : Bytes → Bytes
needle_of key = b'"' ∷ (key ++ b'"' ∷ [])

abbrev pub text_of_string : Option (Bytes × Bytes) → Option Bytes
text_of_string none = none
text_of_string (some (text, rest)) = some text

-- The value that starts a text.
unfoldable pub read_value : Bytes → Option Bytes
unfolding value_text drop_spaces
read_value [] = none
read_value (c ∷ s) =
    if c == b'"'
    then text_of_string (read_json_string (c ∷ s))
    else some (drop_spaces (value_text ScanMode.outside 0 (c ∷ s)))

abbrev pub behind_colon : Option (Bytes × Bytes) → Option Bytes
behind_colon none = none
behind_colon (some (before, after)) = some after

abbrev pub colon_behind : Option (Bytes × Bytes) → Option Bytes
colon_behind none = none
colon_behind (some (before, after)) = behind_colon (cut b':' after)

-- What follows the first colon behind the first occurrence of the quoted key.
unfoldable pub locate : Bytes → Bytes → Option Bytes
locate json key = colon_behind (find_text (needle_of key) json)

abbrev pub value_at : Option Bytes → Option Bytes
value_at none = none
value_at (some text) = read_value (skip_spaces text)

unfoldable pub field : Bytes → Bytes → Option Bytes
unfolding locate read_value skip_spaces
field json key = value_at (locate json key)

abbrev pub or_else : Bytes → Option Bytes → Bytes
or_else other none = other
or_else other (some text) = text

abbrev pub request_of : Option Bytes → Option Bytes → Option Bytes → Option AgentRequest
request_of (some id) (some method) params =
    some (record { id = id; method = method; params_json = or_else (codes "{}") params })
request_of none method params = none
request_of (some id) none params = none

-- `none` is an invalid request.
unfoldable pub parse_request : Bytes → Option AgentRequest
unfolding field
parse_request line =
    request_of (field line (codes "id")) (field line (codes "method")) (field line (codes "params"))

unfoldable pub request_json : Bytes → Bytes → Bytes → Bytes
request_json id method params =
    codes "{\"version\":1,\"id\":"
    ++ (json_string id
        ++ (codes ",\"method\":"
            ++ (json_string method ++ (codes ",\"params\":" ++ (params ++ codes "}\n")))))

unfoldable pub agent_ok : Bytes → Bytes → Bytes
agent_ok id result =
    codes "{\"version\":1,\"id\":"
    ++ (json_string id ++ (codes ",\"ok\":true,\"result\":" ++ (result ++ codes "}")))

unfoldable pub agent_error : Bytes → Bytes → Bytes → Bytes
agent_error id code message =
    codes "{\"version\":1,\"id\":"
    ++ (json_string id
        ++ (codes ",\"ok\":false,\"error\":{\"code\":"
            ++ (json_string code
                ++ (codes ",\"message\":" ++ (json_string message ++ codes "}}")))))

unfoldable pub json_param_string : Bytes → Bytes → Bytes
json_param_string json key = or_else [] (field json key)

abbrev is_digit : ℕ → Bool
is_digit = within b'0' b'9'

abbrev or_zero : Option ℕ → ℕ
or_zero none = 0
or_zero (some n) = n

-- The digits in front, as a number, if there is one.
unfoldable pub leading_number : Option ℕ → Bytes → Option ℕ
leading_number value [] = value
leading_number value (c ∷ s) =
    let rest = leading_number (some (or_zero value * 10 + (c - b'0'))) s in
    if is_digit c then rest else value

abbrev in_range : Bool → Option ℕ → Option ℤ
in_range negative none = none
in_range negative (some n) =
    if negative
    then (if leb n (2 ^ 63) then some (negate n) else none)
    else if ltb n (2 ^ 63)
    then some (pos n)
    else none

abbrev signed : Bytes → Option ℤ
signed [] = none
signed (c ∷ s) =
    if c == b'-'
    then in_range true (leading_number none s)
    else in_range false (leading_number none (if c == b'+' then s else c ∷ s))

-- `std::stoll`, whose exceptions are `none`.
unfoldable pub stoll : Bytes → Option ℤ
unfolding skip_spaces leading_number
stoll text = signed (skip_spaces text)

abbrev integer_or : ℤ → Option ℤ → ℤ
integer_or fallback none = fallback
integer_or fallback (some n) = n

abbrev integer_of : ℤ → Option Bytes → ℤ
integer_of fallback none = fallback
integer_of fallback (some text) = integer_or fallback (stoll text)

unfoldable pub json_param_integer : Bytes → Bytes → ℤ → ℤ
unfolding stoll
json_param_integer json key fallback = integer_of fallback (field json key)

abbrev bool_of : Bool → Option Bytes → Bool
bool_of fallback none = fallback
bool_of fallback (some text) =
    if bytes_eq text (codes "true")
    then true
    else if bytes_eq text (codes "false")
    then false
    else fallback

unfoldable pub json_param_bool : Bytes → Bytes → Bool → Bool
json_param_bool json key fallback = bool_of fallback (field json key)

abbrev kind_of : Bytes → ℕ
kind_of [] = b'?'
kind_of (c ∷ s) =
    if c == b'"'
    then b's'
    else if c == b't' || c == b'f'
    then b'b'
    else if c == b'-' || is_digit c
    then b'n'
    else b'?'

abbrev kind_at : Option Bytes → ℕ
kind_at none = b'?'
kind_at (some text) = kind_of (skip_spaces text)

unfoldable pub json_value_kind : Bytes → Bytes → ℕ
unfolding locate skip_spaces
json_value_kind json key = kind_at (locate json key)

abbrev is_there : Option Bytes → Bool
is_there none = false
is_there (some text) = true

unfoldable pub json_param_has : Bytes → Bytes → Bool
json_param_has json key = is_there (field json key)
