-- ===== src/Navigation.antt =====
-- src/navigation.h and src/navigation.cpp: what the address bar's input is resolved to. Bytes are
-- numbers below 256, and the character tests are those of the C locale.
pub mod Trim
pub mod Query
pub mod Policy
pub mod Tests
use vant.Prelude.{
  ℕ, suc, ◌+◌, ◌-◌, ◌/◌, ◌%◌, Bool, true, false, not, ◌&&◌, ◌||◌, [], ◌∷◌, ◌++◌, map, Option, none,
  some, ltb, ◌==◌, if◌then◌else◌, Bytes, codes, bytes_eq, length,
}
use vant.Strings.{is_alnum, to_lower, is_empty, contains, until, starts_with, find_text}

pub data NavigationKind : Type 0 where
  web internal external rejected : NavigationKind

pub record NavigationDecision : Type 0 where
  pub kind : NavigationKind
  pub uri : Bytes
  pub reason : Bytes

pub record NavigationPolicy : Type 0 where
  pub search_template : Bytes

-- The set of `find_first_not_of` and `find_last_not_of`.
unfoldable pub is_blank : ℕ → Bool
is_blank c = c == b' ' || c == b'\t' || c == b'\r' || c == b'\n'

unfoldable pub trim_start : Bytes → Bytes
unfolding is_blank
trim_start [] = []
trim_start (c ∷ s) = let rest = trim_start s in if is_blank c then rest else c ∷ s

unfoldable pub trim_end : Bytes → Bytes
unfolding is_blank is_empty
trim_end [] = []
trim_end (c ∷ s) = let rest = trim_end s in if is_blank c && is_empty rest then [] else c ∷ rest

unfoldable pub trim : Bytes → Bytes
unfolding trim_start trim_end
trim text = trim_end (trim_start text)

unfoldable pub lower : Bytes → Bytes
unfolding to_lower
lower = map to_lower

-- A digit of `std::uppercase << std::hex`.
unfoldable pub hex_digit : ℕ → ℕ
hex_digit d = if ltb d 10 then b'0' + d else b'A' + (d - 10)

-- What one round of `encode_query` writes; `setw(2)` and `setfill('0')` give two digits to a byte.
unfoldable pub encode_byte : ℕ → Bytes
unfolding is_alnum hex_digit
encode_byte c =
    if is_alnum c || c == b'-' || c == b'_' || c == b'.' || c == b'~'
    then c ∷ []
    else if c == b' '
    then b'+' ∷ []
    else b'%' ∷ hex_digit (c / 16) ∷ hex_digit (c % 16) ∷ []

unfoldable pub encode_query : Bytes → Bytes
unfolding encode_byte
encode_query [] = []
encode_query (c ∷ s) = encode_byte c ++ encode_query s

abbrev pub query_mark : Bytes
query_mark = codes "{query}"

-- `none` is the exception `std::invalid_argument`.
unfoldable pub create : Bytes → Option NavigationPolicy
create search_template = elim (find_text query_mark search_template) [
  | none ↦ none
  | some found ↦ some (record { search_template = search_template })
]

abbrev decide : NavigationKind → Bytes → Bytes → NavigationDecision
decide kind uri reason = record { kind = kind; uri = uri; reason = reason }

abbrev pub is_text : Bytes → Bytes → Bool
is_text = bytes_eq

-- The input has a colon, and the text in front of it is the scheme.
unfoldable pub resolve_scheme : Bytes → NavigationDecision
resolve_scheme input =
    let scheme = lower (until b':' input) in
    if is_text scheme (codes "http")
      || is_text scheme (codes "https")
      || is_text scheme (codes "file")
    then decide web input []
    else if is_text scheme (codes "about") || is_text scheme (codes "vantage")
    then decide internal input []
    else if is_text scheme (codes "mailto") || is_text scheme (codes "tel")
    then decide external input (codes "requires user confirmation")
    else decide rejected [] (codes "scheme is not allowed")

-- `uri.replace(uri.find("{query}"), 7, …)`; without the mark, which the constructor excludes,
-- `replace` throws, and the decision is `none`.
unfoldable pub search : NavigationPolicy → Bytes → Option NavigationDecision
search policy input = elim (find_text query_mark policy.search_template) [
  | none ↦ none
  | some (before, after) ↦ some (decide web (before ++ (encode_query input ++ after)) [])
]

unfoldable pub explicit_host_port : Bytes → Bool
explicit_host_port input =
    contains b':' input
    && (is_text (until b':' input) (codes "localhost") || contains b'.' (until b':' input))

unfoldable pub looks_like_host : Bytes → Bool
looks_like_host input =
    not (contains b' ' input)
    && (contains b'.' input
        || is_text input (codes "localhost")
        || starts_with (codes "localhost:") input)

-- `resolve` behind `trim`.
unfoldable pub resolve_trimmed : NavigationPolicy → Bytes → Option NavigationDecision
resolve_trimmed policy input =
    if is_empty input
    then some (decide rejected [] (codes "empty input"))
    else if contains 0 input || ltb 8192 (length input)
    then some (decide rejected [] (codes "invalid input"))
    else if not (contains b' ' input) && explicit_host_port input
    then some (decide web (codes "https://" ++ input) [])
    else if contains b':' input
    then some (resolve_scheme input)
    else if looks_like_host input
    then some (decide web (codes "https://" ++ input) [])
    else search policy input

unfoldable pub resolve : NavigationPolicy → Bytes → Option NavigationDecision
resolve policy raw = resolve_trimmed policy (trim raw)
