-- ===== src/Rpc/Objects/Fuel.antt =====
-- src/agent_rpc.cpp: the loop of `json_param_string_object` comes to its end.
use vant.Prelude.{
  ℕ, zero, suc, ◌+◌, ◌*◌, ◌≤◌, inl, inr, Option-cases, Bool-cases, ◌<◌, ◌≡◌, refl, [], ◌∷◌, ◌++◌,
  Option, some, arith, ◌==◌, Bytes, length,
}
use vant.Json.{read_json_string, Mode, plain, escaped, digits, read_chars, hex_value, utf8}
use vant.Rpc.{skip_spaces}
use vant.Rpc.Objects.{Pairs, string_value, colon_first, read_pair, after_pair, pairs_loop}

read_chars-shorter :
    (mode : Mode) (s out string rest : Bytes)
    → read_chars mode s out ≡ some (string, rest)
    → length rest < length s
unfolding read_chars
read_chars-shorter mode [] out string rest h = absurd (ground (arith, h))
read_chars-shorter plain (c ∷ s) out string rest h = elim (Bool-cases (c == b'"')) [
  | inl closes ↦ ground (arith, rw closes at h)
  | inr goes_on ↦ omega (arith, read_chars-shorter _ s _ string rest (rw goes_on at h))
]
read_chars-shorter escaped (c ∷ s) out string rest h =
    omega (arith, read_chars-shorter _ s _ string rest h)
read_chars-shorter (digits zero cp) (c ∷ s) out string rest h = elim (Option-cases (hex_value c)) [
  | inl miss ↦ absurd (ground (arith, rw (miss, read_chars) at h))
  | inr (v, found) ↦ omega (
    arith,
    read_chars-shorter plain s (out ++ utf8 (cp * 16 + v)) string rest
        (rw (found, read_chars) at h),
  )
]
read_chars-shorter (digits (suc left) cp) (c ∷ s) out string rest h =
    elim (Option-cases (hex_value c)) [
      | inl miss ↦ absurd (ground (arith, rw (miss, read_chars) at h))
      | inr (v, found) ↦ omega (
        arith,
        read_chars-shorter (digits left (cp * 16 + v)) s out string rest
            (rw (found, read_chars) at h),
      )
    ]

read_json_string-shorter :
    (s string rest : Bytes) → read_json_string s ≡ some (string, rest) → length rest < length s
unfolding read_json_string
read_json_string-shorter [] string rest h = absurd (ground (arith, h))
read_json_string-shorter (c ∷ s) string rest h = elim (Bool-cases (c == b'"')) [
  | inl quote ↦ omega (arith, read_chars-shorter plain s [] string rest (rw quote at h))
  | inr other ↦ ground (arith, rw other at h)
]

skip_spaces-shorter : (s : Bytes) → length (skip_spaces s) ≤ length s
unfolding skip_spaces
skip_spaces-shorter [] = omega arith
skip_spaces-shorter (c ∷ s) = ground (arith, skip_spaces-shorter s)

string_value-shorter :
    (s string rest : Bytes) → string_value s ≡ some (string, rest) → length rest < length s
string_value-shorter s string rest h =
    omega (arith, read_json_string-shorter (skip_spaces s) string rest h, skip_spaces-shorter s)

colon_first-shorter :
    (key s k rest : Bytes) → colon_first key s ≡ some (k, rest) → length rest < length s
colon_first-shorter key [] k rest h = absurd (ground (arith, h))
colon_first-shorter key (c ∷ s) k rest h = ground (arith, h)

read_pair-shorter :
    (s : Bytes) (pair : Bytes × Bytes) (rest : Bytes)
    → read_pair s ≡ some (pair, rest)
    → length rest < length s
unfolding read_pair
read_pair-shorter s pair rest h = elim (Option-cases (string_value s)) [
  | inl miss ↦ absurd (ground (arith, rw (miss, read_pair) at h))
  | inr ((key, t), found) ↦ elim (Option-cases (colon_first key (skip_spaces t))) [
    | inl miss ↦ absurd (ground (arith, rw (found, miss, read_pair) at h))
    | inr ((k, u), colon) ↦ elim (Option-cases (string_value u)) [
      | inl miss ↦ absurd (ground (arith, rw (found, colon, miss, read_pair) at h))
      | inr ((value, w), got) ↦
          let same = rw (found, colon, got, read_pair) at h in
          ground (
            arith,
            same,
            string_value-shorter s key t found,
            skip_spaces-shorter t,
            colon_first-shorter key (skip_spaces t) k u colon,
            string_value-shorter u value w got,
          )
    ]
  ]
]

after_pair-same :
    (f g : Bytes → Pairs → Option Pairs) (out : Pairs) (s : Bytes)
    → ((t : Bytes) → length t < length s → f t out ≡ g t out)
    → after_pair f out s ≡ after_pair g out s
after_pair-same f g out [] same = refl
after_pair-same f g out (c ∷ s) same = ground (arith, same s (omega arith))

-- A fuel above the length of the text is enough: more of it changes nothing.
pub pairs_loop-enough :
    (m n : ℕ) (s : Bytes) (out : Pairs)
    → length s < m
    → length s < n
    → pairs_loop m s out ≡ pairs_loop n s out
unfolding pairs_loop
pairs_loop-enough zero n s out h k = absurd (omega arith)
pairs_loop-enough (suc m) zero s out h k = absurd (omega arith)
pairs_loop-enough (suc m) (suc n) [] out h k = refl
pairs_loop-enough (suc m) (suc n) (c ∷ s) out h k = elim (Option-cases (read_pair (c ∷ s))) [
  | inl miss ↦ rw miss refl
  | inr ((pair, t), found) ↦
      let shorter = read_pair-shorter (c ∷ s) pair t found in
      rw found (
        after_pair-same (pairs_loop m) (pairs_loop n) (out ++ pair ∷ []) (skip_spaces t) (λ u less.
          pairs_loop-enough m n u (out ++ pair ∷ [])
            (omega (arith, shorter, less, skip_spaces-shorter t))
            (omega (arith, shorter, less, skip_spaces-shorter t))))
]
