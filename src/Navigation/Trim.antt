-- ===== src/Navigation/Trim.antt =====
-- `trim` of navigation.cpp.
use vant.Prelude.{ℕ, ◌≡◌, refl, ◌⊎◌, inl, inr, true, [], ◌∷◌, ◌++◌, arith, Bytes, All}
use vant.Navigation.{is_blank, trim_start, trim_end, trim}

abbrev pub IsBlank : ℕ → Type 0
IsBlank c = is_blank c ≡ true

trim_start-blank : (pre s : Bytes) → All IsBlank pre → trim_start (pre ++ s) ≡ trim_start s
unfolding trim_start
trim_start-blank [] s h = refl
trim_start-blank (c ∷ pre) s (h, hs) = rw h (trim_start-blank pre s hs)

trim_end-blank : (s : Bytes) → All IsBlank s → trim_end s ≡ []
unfolding trim_end
trim_end-blank [] h = refl
trim_end-blank (c ∷ s) (h, hs) = rw (h, trim_end-blank s hs)

trim_end-append : (s post : Bytes) → All IsBlank post → trim_end (s ++ post) ≡ trim_end s
unfolding trim_end
trim_end-append [] post h = trim_end-blank post h
trim_end-append (c ∷ s) post h = rw (trim_end-append s post h)

trim_start-append :
    (s post : Bytes)
    → All IsBlank post
    → ((trim_start (s ++ post) ≡ trim_start s ++ post) ⊎ All IsBlank s)
unfolding trim_start
trim_start-append [] post h = inr tt
trim_start-append (c ∷ s) post h = ground (arith, trim_start-append s post h)

trim_start-All : (s : Bytes) → All IsBlank s → trim_start s ≡ []
unfolding trim_start
trim_start-All [] h = refl
trim_start-All (c ∷ s) (h, hs) = rw h (trim_start-All s hs)

-- Blanks round the input change nothing.
pub trim-append :
    (pre s post : Bytes) → All IsBlank pre → All IsBlank post → trim (pre ++ (s ++ post)) ≡ trim s
unfolding trim
trim-append pre s post h k = elim (trim_start-append s post k) [
  | inl e ↦ rw (trim_start-blank pre (s ++ post) h, e) (trim_end-append (trim_start s) post k)
  | inr all ↦ rw (
    trim_start-blank pre (s ++ post) h,
    trim_start-blank s post all,
    trim_start-All post k,
    trim_start-All s all,
  )
]
