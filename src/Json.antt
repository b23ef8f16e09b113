-- ===== src/Json.antt =====
-- src/agent_rpc.cpp: the JSON string literals of the agent protocol, `json_escape`, `json_string`
-- and `read_json_string`. The reader's index into the text is here the text that is left, and its
-- inner loops are modes of one loop over the bytes: behind a backslash, and behind `\u` with
-- `left` more digits to come after the next.
pub mod RoundTrip
pub mod Tests
use vant.Prelude.{
  ℕ, zero, suc, ◌+◌, ◌-◌, ◌*◌, ◌/◌, ◌%◌, Bool, true, false, ◌&&◌, [], ◌∷◌, ◌++◌, Option, none, some,
  ltb, leb, ◌==◌, if◌then◌else◌, Bytes, codes,
}
use vant.Strings.{within}

-- A digit of `%04x`.
unfoldable pub hex_digit : ℕ → ℕ
hex_digit d = if ltb d 10 then b'0' + d else b'a' + (d - 10)

abbrev pub backslashed : ℕ → Bytes
backslashed c = b'\\' ∷ c ∷ []

-- What one round of `json_escape` appends.
unfoldable pub escape_byte : ℕ → Bytes
unfolding hex_digit
escape_byte c =
    if c == b'\\'
    then backslashed b'\\'
    else if c == b'"'
    then backslashed b'"'
    else if c == b'\n'
    then backslashed b'n'
    else if c == b'\r'
    then backslashed b'r'
    else if c == b'\t'
    then backslashed b't'
    else if ltb c 32
    then b'\\' ∷ b'u' ∷ b'0' ∷ b'0' ∷ hex_digit (c / 16) ∷ hex_digit (c % 16) ∷ []
    else c ∷ []

unfoldable pub json_escape : Bytes → Bytes
json_escape [] = []
json_escape (c ∷ s) = escape_byte c ++ json_escape s

unfoldable pub json_string : Bytes → Bytes
json_string s = b'"' ∷ (json_escape s ++ b'"' ∷ [])

-- The value of a hexadecimal digit of either case.
unfoldable pub hex_value : ℕ → Option ℕ
hex_value h =
    if within b'0' b'9' h
    then some (h - b'0')
    else if within b'a' b'f' h
    then some (h - b'a' + 10)
    else if within b'A' b'F' h
    then some (h - b'A' + 10)
    else none

-- The byte that a one-letter escape stands for; an unknown one stands for itself.
unfoldable pub unescape : ℕ → ℕ
unescape e =
    if e == b'n'
    then 10
    else if e == b'r'
    then 13
    else if e == b't'
    then 9
    else if e == b'b'
    then 8
    else if e == b'f'
    then 12
    else e

-- The bytes of a code point of at most 16 bits; `|` of parts with no common bit is a sum.
unfoldable pub utf8 : ℕ → Bytes
utf8 cp =
    if ltb cp 0x80
    then cp ∷ []
    else if ltb cp 0x800
    then (0xC0 + cp / 64) ∷ (0x80 + cp % 64) ∷ []
    else (0xE0 + cp / 4096) ∷ (0x80 + cp / 64 % 64) ∷ (0x80 + cp % 64) ∷ []

pub data Mode : Type 0 where
  plain : Mode
  escaped : Mode
  digits : ℕ → ℕ → Mode

unfoldable pub read_chars : Mode → Bytes → Bytes → Option (Bytes × Bytes)
unfolding hex_value unescape utf8
read_chars mode [] out = none
read_chars plain (c ∷ s) out =
    let next =
      read_chars (if c == b'\\' then escaped else plain) s
        (if c == b'\\' then out else out ++ c ∷ []) in
    if c == b'"' then some (out, s) else next
read_chars escaped (e ∷ s) out =
    read_chars (if e == b'u' then digits 3 0 else plain) s
      (if e == b'u' then out else out ++ unescape e ∷ [])
read_chars (digits zero cp) (h ∷ s) out = elim (hex_value h) [
  | none ↦ none
  | some v ↦ read_chars plain s (out ++ utf8 (cp * 16 + v))
]
read_chars (digits (suc left) cp) (h ∷ s) out = elim (hex_value h) [
  | none ↦ none
  | some v ↦ read_chars (digits left (cp * 16 + v)) s out
]

-- The decoded text and what follows the closing quote.
unfoldable pub read_json_string : Bytes → Option (Bytes × Bytes)
unfolding read_chars
read_json_string [] = none
read_json_string (c ∷ s) = if c == b'"' then read_chars plain s [] else none
