-- ===== src/Decimal.antt =====
-- `std::to_string` of an unsigned number, which the sources use for ids, counts and generations. No
-- code of the repository is modelled here.
use vant.Prelude.{
  ℕ, zero, suc, ◌+◌, ◌-◌, ◌*◌, ◌/◌, ◌%◌, ◌≤◌, ◌≡◌, ◌∙◌, refl, inl, inr, [], ◌∷◌, arith, false, ◌==◌,
  if◌then◌else◌, Bytes, All, Bool-cases,
}

-- One round for each digit; the fuel `n` is enough for the number `n`.
digits : ℕ → ℕ → Bytes → Bytes
digits zero n out = out
digits (suc f) n out =
    let rest = digits f (n / 10) ((b'0' + n % 10) ∷ out) in if n == 0 then out else rest

unfoldable pub to_string : ℕ → Bytes
unfolding digits
to_string n = if n == 0 then b'0' ∷ [] else digits n n []

-- The number that digits behind those of `acc` stand for.
unfoldable pub value_of : ℕ → Bytes → ℕ
value_of acc [] = acc
value_of acc (c ∷ s) = value_of (acc * 10 + (c - b'0')) s

value_of-digits : (f n : ℕ) (out : Bytes) → n ≤ f → value_of 0 (digits f n out) ≡ value_of n out
unfolding digits value_of
value_of-digits zero n out h = ground arith
value_of-digits (suc f) n out h = elim (Bool-cases (n == 0)) [
  | inl none_left ↦ ground arith
  | inr more ↦
      rw more (value_of-digits f (n / 10) ((b'0' + n % 10) ∷ out) (ground arith) ∙ ground arith)
]

-- Every number is read back from its digits, so the fuel is enough and no two have the same text.
pub value_of-to_string : (n : ℕ) → value_of 0 (to_string n) ≡ n
unfolding to_string value_of
value_of-to_string n = ground (arith, value_of-digits n n [])

abbrev pub IsDigit : ℕ → Type 0
IsDigit c = (b'0' ≤ c) × (c ≤ b'9')

digits-IsDigit : (f n : ℕ) (out : Bytes) → All IsDigit out → All IsDigit (digits f n out)
unfolding digits
digits-IsDigit zero n out h = h
digits-IsDigit (suc f) n out h = elim (Bool-cases (n == 0)) [
  | inl none_left ↦ rw none_left h
  | inr more ↦ rw more (digits-IsDigit f (n / 10) ((b'0' + n % 10) ∷ out) (omega arith, h))
]

pub to_string-IsDigit : (n : ℕ) → All IsDigit (to_string n)
unfolding to_string
to_string-IsDigit n = elim (Bool-cases (n == 0)) [
  | inl none_left ↦ rw none_left (omega arith)
  | inr more ↦ rw more (digits-IsDigit n n [] tt)
]

digits-cons : (f n c : ℕ) (out : Bytes) → (d : ℕ) × (w : Bytes) × (digits f n (c ∷ out) ≡ d ∷ w)
unfolding digits
digits-cons zero n c out = (c, out, refl)
digits-cons (suc f) n c out = elim (Bool-cases (n == 0)) [
  | inl none_left ↦ (c, out, rw none_left refl)
  | inr more ↦ let (d, w, e) = digits-cons f (n / 10) (b'0' + n % 10) (c ∷ out) in (d, w, rw more e)
]

-- A number has a digit at least.
pub to_string-cons : (n : ℕ) → (d : ℕ) × (w : Bytes) × (to_string n ≡ d ∷ w)
unfolding to_string digits
to_string-cons zero = (b'0', [], refl)
to_string-cons (suc n) =
    let (d, w, e) = digits-cons n (suc n / 10) (b'0' + suc n % 10) [] in
    let more : (suc n == 0) ≡ false = ground arith in (d, w, rw more e)
