-- ===== src/Json/RoundTrip.antt =====
-- Reading back the string literals that agent_rpc.cpp writes.
use vant.Prelude.{
  ℕ, ◌≤◌, ◌≡◌, refl, ◌∙◌, [], ◌∷◌, ◌++◌, some, arith, append_assoc, append-nil, Bytes, All,
  All-append,
}
use vant.Json.{escape_byte, json_escape, json_string, plain, read_chars, read_json_string}

read-escape_byte :
    (c : ℕ) (rest out : Bytes)
    → read_chars plain (escape_byte c ++ rest) out ≡ read_chars plain rest (out ++ c ∷ [])
unfolding read_chars escape_byte
read-escape_byte c rest out = ground arith

read-json_escape :
    (s rest out : Bytes)
    → read_chars plain (json_escape s ++ (b'"' ∷ rest)) out ≡ some (out ++ s, rest)
unfolding json_escape
read-json_escape [] rest out = rw append-nil (unfold read_chars in refl)
read-json_escape (c ∷ s) rest out = rw append_assoc (
    read-escape_byte c (json_escape s ++ (b'"' ∷ rest)) out
    ∙ read-json_escape s rest (out ++ c ∷ [])
    ∙ rw append_assoc)

-- Every byte string is read back from its literal, and what follows the literal is left.
pub read-json_string : (s rest : Bytes) → read_json_string (json_string s ++ rest) ≡ some (s, rest)
unfolding read_json_string json_string
read-json_string s rest = rw append_assoc (read-json_escape s rest [])

abbrev pub IsPrinted : ℕ → Type 0
IsPrinted c = 32 ≤ c

escape_byte-IsPrinted : (c : ℕ) → All IsPrinted (escape_byte c)
unfolding escape_byte
escape_byte-IsPrinted c = ground arith

json_escape-IsPrinted : (s : Bytes) → All IsPrinted (json_escape s)
unfolding json_escape
json_escape-IsPrinted [] = tt
json_escape-IsPrinted (c ∷ s) =
    All-append IsPrinted (escape_byte c) (json_escape s) (escape_byte-IsPrinted c)
      (json_escape-IsPrinted s)

-- No byte of a written literal is below 32, so a literal holds no line end.
pub json_string-IsPrinted : (s : Bytes) → All IsPrinted (json_string s)
unfolding json_string
json_string-IsPrinted s = (
  omega arith,
  All-append IsPrinted (json_escape s) (b'"' ∷ []) (json_escape-IsPrinted s) (omega arith),
)
