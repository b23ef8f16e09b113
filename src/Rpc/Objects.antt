-- ===== src/Rpc/Objects.antt =====
-- src/agent_rpc.cpp, `json_param_string_object`: an object of strings among the parameters. The
-- position in the text is the text that is left.
pub mod Fuel
pub mod RoundTrip
use vant.Prelude.{
  ℕ, zero, suc, Bool, not, ◌&&◌, List, [], ◌∷◌, ◌++◌, Option, none, some, ltb, ◌==◌, if◌then◌else◌,
  Bytes, codes, length, drop,
}
use vant.Strings.{starts_with, ends_with_byte}
use vant.Json.{read_json_string}
use vant.Rpc.{skip_spaces, field}

abbrev pub Pairs : Type 0
Pairs = List (Bytes × Bytes)

abbrev string_value : Bytes → Option (Bytes × Bytes)
string_value s = read_json_string (skip_spaces s)

abbrev colon_first : Bytes → Bytes → Option (Bytes × Bytes)
colon_first key [] = none
colon_first key (c ∷ s) = if c == b':' then some (key, s) else none

abbrev key_of : Option (Bytes × Bytes) → Option (Bytes × Bytes)
key_of none = none
key_of (some (key, s)) = colon_first key (skip_spaces s)

abbrev paired : Bytes → Option (Bytes × Bytes) → Option ((Bytes × Bytes) × Bytes)
paired key none = none
paired key (some (value, s)) = some ((key, value), s)

abbrev value_behind : Option (Bytes × Bytes) → Option ((Bytes × Bytes) × Bytes)
value_behind none = none
value_behind (some (key, s)) = paired key (string_value s)

-- A key, a colon and a value, and what stands behind them.
unfoldable pub read_pair : Bytes → Option ((Bytes × Bytes) × Bytes)
read_pair s = value_behind (key_of (string_value s))

-- What follows a pair: a comma and another one, or the brace.
abbrev after_pair : (Bytes → Pairs → Option Pairs) → Pairs → Bytes → Option Pairs
after_pair next out [] = none
after_pair next out (c ∷ s) = if c == b',' then next s out else if c == b'}' then some out else none

abbrev with_pair :
    (Bytes → Pairs → Option Pairs) → Pairs → Option ((Bytes × Bytes) × Bytes) → Option Pairs
with_pair next out none = none
with_pair next out (some (pair, s)) = after_pair next (out ++ pair ∷ []) (skip_spaces s)

-- The loop, with fuel for each pair.
unfoldable pub pairs_loop : ℕ → Bytes → Pairs → Option Pairs
unfolding read_pair
pairs_loop zero s out = none
pairs_loop (suc fuel) [] out = some out
pairs_loop (suc fuel) (c ∷ s) out = with_pair (pairs_loop fuel) out (read_pair (c ∷ s))

abbrev is_braced : Bytes → Bool
is_braced raw = not (ltb (length raw) 2) && starts_with (codes "{") raw && ends_with_byte b'}' raw

abbrev opened : ℕ → Bytes → Option Pairs
opened fuel [] = pairs_loop fuel [] []
opened fuel (c ∷ s) = if c == b'}' then some [] else pairs_loop fuel (c ∷ s) []

-- Every round takes a byte at least.
unfoldable pub string_object : Bytes → Option Pairs
unfolding pairs_loop
string_object raw =
    if not (is_braced raw) then none else opened (length raw) (skip_spaces (drop 1 raw))

abbrev object_at : Option Bytes → Option Pairs
object_at none = none
object_at (some raw) = string_object raw

unfoldable pub json_param_string_object : Bytes → Bytes → Option Pairs
unfolding string_object
json_param_string_object json key = object_at (field json key)
