-- ===== src/Rpc/Fields.antt =====
-- src/agent_rpc.cpp: where the search for a field ends up in a text with string literals.
use vant.Prelude.{
  ℕ, suc, ◌≡◌, ◌≢◌, ◌∙◌, refl, ap, inl, inr, ◌⊎◌, true, false, [], ◌∷◌, ◌++◌, append_assoc, some,
  arith, Bytes, length, drop, length-append, All, Bool-cases, Option-cases,
}
use vant.Strings.{
  starts_with, starts_with_self, find_text, cut, contains, contains-append, cut-append,
}
use vant.Json.{escape_byte, hex_digit, json_escape, json_string}
use vant.Rpc.{needle_of, behind_colon, colon_behind}

-- A byte of a key: no quote and no backslash.
abbrev pub IsKeyByte : ℕ → Type 0
IsKeyByte c = (c ≢ b'"') × (c ≢ b'\\')

-- Where a literal's text goes on with a key and its closing quote, the literal ends there.
literal_end :
    (key s tail : Bytes)
    → All IsKeyByte key
    → starts_with (key ++ b'"' ∷ []) (json_escape s ++ b'"' ∷ tail) ≡ true
    → drop (suc (length key)) (json_escape s ++ b'"' ∷ tail) ≡ tail
unfolding starts_with json_escape escape_byte
literal_end [] [] tail keys h = refl
literal_end [] (c ∷ s) tail keys h = ground (arith, h)
literal_end (x ∷ key) [] tail keys h = ground (arith, h, keys.0)
literal_end (x ∷ key) (c ∷ s) tail keys h = ground (arith, h, keys.0, literal_end key s tail keys.1)

-- A byte where the key does not start is passed over.
passed :
    (key t : Bytes) (c : ℕ)
    → starts_with (needle_of key) (c ∷ t) ≡ false
    → colon_behind (find_text (needle_of key) (c ∷ t)) ≡ colon_behind (find_text (needle_of key) t)
unfolding find_text
passed key t c h = rw h (elim (Option-cases (find_text (needle_of key) t)) [
  | inl miss ↦ rw miss refl
  | inr (p, found) ↦ rw found refl
])

-- A key with what an object writes around it, behind a value.
abbrev pub keyed : Bytes → Bytes → Bytes
keyed key rest = b',' ∷ b'"' ∷ (key ++ b'"' ∷ b':' ∷ rest)

-- What a key must be like for the search.
pub record IsKey (key : Bytes) : Type 0 where
  pub bytes : All IsKeyByte key
  pub no_colon : contains b':' key ≡ false
  pub no_comma : (s : Bytes) → starts_with (key ++ b'"' ∷ []) (b',' ∷ s) ≡ false

no_colon_in :
    (key : Bytes)
    → contains b':' key ≡ false
    → contains b':' (b',' ∷ b'"' ∷ (key ++ b'"' ∷ [])) ≡ false
unfolding contains
no_colon_in key h = ground (arith, contains-append b':' key (b'"' ∷ []), h)

-- The search for a colon from the literal's end finds the key's.
cut-keyed : (key rest : Bytes) → IsKey key → behind_colon (cut b':' (keyed key rest)) ≡ some rest
cut-keyed key rest k =
    let front = b',' ∷ b'"' ∷ (key ++ b'"' ∷ []) in
    ap (λ (t : Bytes). behind_colon (cut b':' t)) (keyed-append key rest)
    ∙ ap behind_colon (cut-append b':' front rest (no_colon_in key k.no_colon))
  where
    keyed-append :
        (key rest : Bytes) → keyed key rest ≡ (b',' ∷ b'"' ∷ (key ++ b'"' ∷ [])) ++ b':' ∷ rest
    keyed-append key rest = rw append_assoc refl

drop-append : (p s : Bytes) → drop (length p) (p ++ s) ≡ s
drop-append [] s = refl
drop-append (c ∷ p) s = drop-append p s

-- A key that starts here is found here.
hit :
    (key t : Bytes)
    → starts_with (needle_of key) t ≡ true
    → colon_behind (find_text (needle_of key) t)
      ≡ behind_colon (cut b':' (drop (suc (length (key ++ b'"' ∷ []))) t))
unfolding find_text starts_with
hit key [] h = ground (arith, h)
hit key (c ∷ t) h = rw h refl

-- From a literal's closing quote on, the key is found.
found-keyed :
    (key rest : Bytes)
    → IsKey key
    → colon_behind (find_text (needle_of key) (b'"' ∷ keyed key rest)) ≡ some rest
unfolding starts_with cut
found-keyed key rest k =
    let shape : key ++ b'"' ∷ b':' ∷ rest ≡ (key ++ b'"' ∷ []) ++ b':' ∷ rest =
      rw append_assoc refl in
    passed key (keyed key rest) b'"' (k.no_comma _)
    ∙ passed key (b'"' ∷ (key ++ b'"' ∷ b':' ∷ rest)) b',' (ground arith)
    ∙ hit key (b'"' ∷ (key ++ b'"' ∷ b':' ∷ rest))
        (rw shape (starts_with_self (needle_of key) (b':' ∷ rest)))
    ∙ rw (shape, drop-append (key ++ b'"' ∷ []) (b':' ∷ rest)) (ground arith)

-- An escaped byte has no quote in it, but for the quote itself.
escape_byte-quote :
    (c : ℕ) → All (λ (y : ℕ). y ≢ b'"') (escape_byte c) ⊎ (escape_byte c ≡ b'\\' ∷ b'"' ∷ [])
unfolding escape_byte hex_digit
escape_byte-quote c = ground arith

pub passed_block :
    (key block t : Bytes)
    → All (λ (y : ℕ). y ≢ b'"') block
    → colon_behind (find_text (needle_of key) (block ++ t))
      ≡ colon_behind (find_text (needle_of key) t)
unfolding starts_with
passed_block key [] t h = refl
passed_block key (c ∷ block) t h =
    passed key (block ++ t) c (ground (arith, h.0)) ∙ passed_block key block t h.1

-- At a quote inside a literal the key starts only where the literal ends with it.
quote-keyed :
    (key s rest : Bytes)
    → IsKey key
    → colon_behind (find_text (needle_of key) (json_escape s ++ b'"' ∷ keyed key rest)) ≡ some rest
    → colon_behind (find_text (needle_of key) (b'"' ∷ (json_escape s ++ b'"' ∷ keyed key rest)))
      ≡ some rest
unfolding starts_with
quote-keyed key s rest k later =
    let t = json_escape s ++ b'"' ∷ keyed key rest in
    elim (Bool-cases (starts_with (key ++ b'"' ∷ []) t)) [
      | inr other ↦ passed key t b'"' (ground (arith, other)) ∙ later
      | inl ends ↦
          let one_more : length (key ++ b'"' ∷ []) ≡ suc (length key) =
            omega (arith, length-append key (b'"' ∷ [])) in
          let same : drop (length (key ++ b'"' ∷ [])) t ≡ keyed key rest =
            ap (λ n. drop n t) one_more ∙ literal_end key s (keyed key rest) k.bytes ends in
          hit key (b'"' ∷ t) (ground (arith, ends)) ∙ rw same (cut-keyed key rest k)
    ]

-- In front of the key stands a literal: whatever it says, the search finds what follows the key.
pub literal-keyed :
    (key s rest : Bytes)
    → IsKey key
    → colon_behind (find_text (needle_of key) (json_escape s ++ b'"' ∷ keyed key rest)) ≡ some rest
unfolding json_escape starts_with
literal-keyed key [] rest k = found-keyed key rest k
literal-keyed key (c ∷ s) rest k =
    let t = json_escape s ++ b'"' ∷ keyed key rest in
    let later = literal-keyed key s rest k in
    elim (escape_byte-quote c) [
      | inl none_there ↦ rw append_assoc (passed_block key (escape_byte c) t none_there ∙ later)
      | inr quote ↦
          rw quote (passed key (b'"' ∷ t) b'\\' (ground arith) ∙ quote-keyed key s rest k later)
    ]

-- Behind a literal the key is found.
pub string-keyed :
    (key s rest : Bytes)
    → IsKey key
    → colon_behind (find_text (needle_of key) (json_string s ++ keyed key rest)) ≡ some rest
unfolding json_string
string-keyed key s rest k =
    ap (λ (t : Bytes). colon_behind (find_text (needle_of key) t))
      (ap (λ (t : Bytes). b'"' ∷ t) (append_assoc (json_escape s) (b'"' ∷ []) (keyed key rest)))
    ∙ quote-keyed key s rest k (literal-keyed key s rest k)

-- The key starts nowhere in `pre`, where `t` follows.
abbrev pub Misses : Bytes → Bytes → Bytes → Type 0
Misses key [] t = Unit
Misses key (c ∷ pre) t = (starts_with (needle_of key) (c ∷ (pre ++ t)) ≡ false) × Misses key pre t

pub passed_prefix :
    (key pre t : Bytes)
    → Misses key pre t
    → colon_behind (find_text (needle_of key) (pre ++ t))
      ≡ colon_behind (find_text (needle_of key) t)
passed_prefix key [] t h = refl
passed_prefix key (c ∷ pre) t h = passed key (pre ++ t) c h.0 ∙ passed_prefix key pre t h.1
