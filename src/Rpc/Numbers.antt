-- ===== src/Rpc/Numbers.antt =====
-- src/agent_rpc.cpp: numbers in requests and replies, written by `std::to_string`.
use vant.Prelude.{
  ℕ, ◌+◌, ◌-◌, ◌*◌, ◌^◌, ◌<◌, ◌≡◌, ◌∙◌, refl, ap, sym, subst, true, ◌||◌, [], ◌∷◌, ◌++◌, append-nil,
  none, some, arith, ◌==◌, Bytes, pos, All,
}
use vant.Strings.{is_space}
use vant.Decimal.{
  to_string, value_of, value_of-to_string, IsDigit, to_string-IsDigit, to_string-cons,
}
use vant.Rpc.{
  outside, value_text, skip_spaces, drop_spaces, read_value, value_at, leading_number, signed,
  stoll,
}
use vant.Rpc.Values.{word, print, IsSound, scan-print}

word-IsSound : (w : Bytes) → All IsDigit w → IsSound (word w)
unfolding IsSound
word-IsSound [] h = tt
word-IsSound (c ∷ w) h = (ground (arith, h.0), word-IsSound w h.1)

pub to_string-IsSound : (n : ℕ) → IsSound (word (to_string n))
to_string-IsSound n = word-IsSound (to_string n) (to_string-IsDigit n)

drop_spaces-digits : (w : Bytes) → All IsDigit w → drop_spaces w ≡ w
unfolding drop_spaces is_space
drop_spaces-digits [] h = refl
drop_spaces-digits (c ∷ w) h = ground (arith, h.0, drop_spaces-digits w h.1)

-- A number is a digit and what follows it.
pub to_string-digits : (n : ℕ) → (c : ℕ) × (w : Bytes) × (to_string n ≡ c ∷ w) × All IsDigit (c ∷ w)
to_string-digits n =
    let (c, w, e) = to_string-cons n in (c, w, e, subst (All IsDigit) e (to_string-IsDigit n))

leading_number-digits :
    (v : ℕ) (w : Bytes) → All IsDigit w → leading_number (some v) w ≡ some (value_of v w)
unfolding leading_number value_of
leading_number-digits v [] h = refl
leading_number-digits v (c ∷ w) h =
    ground (arith, h.0, leading_number-digits (v * 10 + (c - b'0')) w h.1)

first_number :
    (c : ℕ) (w : Bytes)
    → All IsDigit (c ∷ w)
    → leading_number none (c ∷ w) ≡ some (value_of 0 (c ∷ w))
unfolding leading_number value_of
first_number c w h = ground (
  arith,
  h.0,
  leading_number-digits (c - b'0') w h.1,
  leading_number-digits (0 * 10 + (c - b'0')) w h.1,
)

pub leading_number-to_string : (n : ℕ) → leading_number none (to_string n) ≡ some n
leading_number-to_string n =
    let (c, w, e, h) = to_string-digits n in
    ap (leading_number none) e
    ∙ first_number c w h
    ∙ ap (λ t. some (value_of 0 t)) (sym e)
    ∙ ap (λ m. some m) (value_of-to_string n)

skip_spaces-digit :
    (c : ℕ) (w rest : Bytes) → IsDigit c → skip_spaces (c ∷ (w ++ rest)) ≡ c ∷ (w ++ rest)
unfolding skip_spaces is_space
skip_spaces-digit c w rest h = ground (arith, h)

skip_spaces-to_string :
    (n : ℕ) (rest : Bytes) → skip_spaces (to_string n ++ rest) ≡ to_string n ++ rest
skip_spaces-to_string n rest =
    let (c, w, e, h) = to_string-digits n in
    ap (λ t. skip_spaces (t ++ rest)) e
    ∙ skip_spaces-digit c w rest h.0
    ∙ ap (λ t. t ++ rest) (sym e)

read_value-digit :
    (c : ℕ) (w rest : Bytes)
    → IsDigit c
    → read_value (c ∷ (w ++ rest)) ≡ some (drop_spaces (value_text outside 0 (c ∷ (w ++ rest))))
unfolding read_value
read_value-digit c w rest h = ground (arith, h)

scan-number :
    (n : ℕ) (rest : Bytes)
    → value_text outside 0 (to_string n ++ rest) ≡ to_string n ++ value_text outside 0 rest
unfolding print
scan-number n rest = (scan-print 0 (word (to_string n)) (to_string-IsSound n)).scan rest

-- A number in front of a comma or a closing bracket is read as its text.
pub value_at-to_string :
    (n c : ℕ) (rest : Bytes)
    → (c == b',' || c == b'}') ≡ true
    → value_at (some (to_string n ++ c ∷ rest)) ≡ some (to_string n)
value_at-to_string n c rest ends =
    let (d, w, e, h) = to_string-digits n in
    ap read_value (skip_spaces-to_string n (c ∷ rest))
    ∙ ap (λ t. read_value (t ++ c ∷ rest)) e
    ∙ read_value-digit d w (c ∷ rest) h.0
    ∙ ap (λ t. some (drop_spaces (value_text outside 0 (t ++ c ∷ rest)))) (sym e)
    ∙ ap (λ t. some (drop_spaces t)) (scan-number n (c ∷ rest))
    ∙ ap (λ t. some (drop_spaces (to_string n ++ t))) (ended c rest ends)
    ∙ ap (λ t. some (drop_spaces t)) (append-nil (to_string n))
    ∙ ap (λ t. some t) (drop_spaces-digits (to_string n) (to_string-IsDigit n))
  where
    ended :
        (c : ℕ) (rest : Bytes)
        → (c == b',' || c == b'}') ≡ true
        → value_text outside 0 (c ∷ rest) ≡ []
    ended c rest ends = unfold value_text in ground (arith, ends)

pub skip_spaces-number : (n : ℕ) → skip_spaces (to_string n) ≡ to_string n
skip_spaces-number n =
    sym (ap skip_spaces (append-nil (to_string n)))
    ∙ skip_spaces-to_string n []
    ∙ append-nil (to_string n)

signed_digit :
    (c : ℕ) (w : Bytes) (n : ℕ)
    → IsDigit c
    → leading_number none (c ∷ w) ≡ some n
    → n < 2 ^ 63
    → signed (c ∷ w) ≡ some (pos n)
signed_digit c w n h e small = ground (arith, h, e, small)

-- A number below 2 ^ 63 is read back.
pub stoll-to_string : (n : ℕ) → n < 2 ^ 63 → stoll (to_string n) ≡ some (pos n)
unfolding stoll
stoll-to_string n small =
    let (c, w, e, h) = to_string-digits n in
    ap signed (skip_spaces-number n)
    ∙ ap signed e
    ∙ signed_digit c w n h.0 (ap (leading_number none) (sym e) ∙ leading_number-to_string n) small
