-- ===== src/Strings.antt =====
-- The operations of `std::string` and the character tests of the C locale that the source uses,
-- on byte strings. No code of the repository is modelled here.
use vant.Prelude.{
  ℕ, ◌+◌, ◌≡◌, refl, Bool, true, false, ◌&&◌, ◌||◌, [], ◌∷◌, ◌++◌, Option, none, some, arith, leb,
  ◌==◌, if◌then◌else◌, Bytes, bytes_eq, length, drop, inl, inr, Bool-cases, Option-cases,
}

abbrev pub within : ℕ → ℕ → ℕ → Bool
within lo hi c = leb lo c && leb c hi

-- `std::isalpha`, `std::isalnum`, `std::isspace` and `std::tolower`.
unfoldable pub is_alpha : ℕ → Bool
is_alpha c = within b'a' b'z' c || within b'A' b'Z' c

unfoldable pub is_alnum : ℕ → Bool
unfolding is_alpha
is_alnum c = is_alpha c || within b'0' b'9' c

unfoldable pub is_space : ℕ → Bool
is_space c = c == 32 || within 9 13 c

unfoldable pub to_lower : ℕ → ℕ
to_lower c = if within b'A' b'Z' c then c + 32 else c

unfoldable pub is_empty : Bytes → Bool
is_empty [] = true
is_empty (c ∷ s) = false

-- `s.find(c) != npos`.
unfoldable pub contains : ℕ → Bytes → Bool
contains c [] = false
contains c (x ∷ s) = x == c || contains c s

-- `s.substr(0, s.find(c))`, for a `c` that is there.
unfoldable pub until : ℕ → Bytes → Bytes
until c [] = []
until c (x ∷ s) = let rest = until c s in if x == c then [] else x ∷ rest

unfoldable pub starts_with : Bytes → Bytes → Bool
starts_with [] s = true
starts_with (c ∷ p) [] = false
starts_with (c ∷ p) (x ∷ s) = c == x && starts_with p s

-- `s.find(needle)`: what stands before the first occurrence, and what stands behind it.
abbrev pub put_front : ℕ → Option (Bytes × Bytes) → Option (Bytes × Bytes)
put_front c none = none
put_front c (some (before, after)) = some (c ∷ before, after)

unfoldable pub find_text : Bytes → Bytes → Option (Bytes × Bytes)
unfolding starts_with
find_text needle [] = if bytes_eq needle [] then some ([], []) else none
find_text needle (c ∷ s) =
    let later = put_front c (find_text needle s) in
    if starts_with needle (c ∷ s) then some ([], drop (length needle) (c ∷ s)) else later

pub starts_with-append : (p s : Bytes) → starts_with p s ≡ true → s ≡ p ++ drop (length p) s
unfolding starts_with
starts_with-append [] s h = refl
starts_with-append (c ∷ p) [] h = ground arith
starts_with-append (c ∷ p) (x ∷ s) h = ground (arith, starts_with-append p s)

pub starts_with_self : (p s : Bytes) → starts_with p (p ++ s) ≡ true
unfolding starts_with
starts_with_self [] s = refl
starts_with_self (c ∷ p) s = ground (arith, starts_with_self p s)

-- `s.find(c)` with what stands before it and what stands behind it.
unfoldable pub cut : ℕ → Bytes → Option (Bytes × Bytes)
cut c [] = none
cut c (x ∷ s) = let later = put_front x (cut c s) in if x == c then some ([], s) else later

-- `s.back() == c`.
unfoldable pub ends_with_byte : ℕ → Bytes → Bool
ends_with_byte c [] = false
ends_with_byte c (x ∷ []) = x == c
ends_with_byte c (x ∷ y ∷ s) = ends_with_byte c (y ∷ s)

pub cut-append :
    (c : ℕ) (s rest : Bytes) → contains c s ≡ false → cut c (s ++ c ∷ rest) ≡ some (s, rest)
unfolding contains cut
cut-append c [] rest h = ground arith
cut-append c (x ∷ s) rest h = ground (arith, cut-append c s rest)

-- What is cut is the text, and the first part is free of the byte.
pub cut-some :
    (c : ℕ) (s before after : Bytes)
    → cut c s ≡ some (before, after)
    → (s ≡ before ++ c ∷ after) × (contains c before ≡ false)
unfolding contains cut
cut-some c [] before after h = cc
cut-some c (x ∷ s) before after h = elim (Bool-cases (x == c)) [
  | inl here ↦ ground arith
  | inr later ↦ elim (Option-cases (cut c s)) [
    | inl miss ↦ ground arith
    | inr ((b, a), found) ↦ ground (arith, cut-some c s b a found)
  ]
]

pub contains-append : (c : ℕ) (s t : Bytes) → contains c (s ++ t) ≡ (contains c s || contains c t)
unfolding contains
contains-append c [] t = refl
contains-append c (x ∷ s) t = ground (arith, contains-append c s t)
