-- ===== src/Preferences/Maps.antt =====
-- The maps of preferences.cpp: their keys rise, so what is erased is gone.
use vant.Prelude.{
  subst, ◌≡◌, refl, inl, inr, true, false, [], ◌∷◌, ◌++◌, none, arith, Bytes, bytes_eq,
  bytes_eq_iff, All, Bool-cases,
}
use vant.Preferences.{Values, bytes_lt, lookup, assign, erase}
use vant.Preferences.Order.{bytes_lt_asymm, bytes_lt_irrefl, bytes_lt_total, bytes_ge_trans}

-- Every key of `m` is above `k`.
abbrev pub Over : Bytes → Values → Type 0
Over k = All (λ (p : Bytes × Bytes). bytes_lt k p.0 ≡ true)

abbrev pub IsMap : Values → Type 0
IsMap [] = Unit
IsMap ((k, v) ∷ m) = Over k m × IsMap m

bytes_lt_trans : (a b c : Bytes) → bytes_lt a b ≡ true → bytes_lt b c ≡ true → bytes_lt a c ≡ true
bytes_lt_trans a b c h k = elim (Bool-cases (bytes_lt a c)) [
  | inl lower ↦ lower
  | inr level ↦
      let back = bytes_ge_trans c a b level (bytes_lt_asymm a b h) in ground (arith, back, k)
]

Over-trans : (j k : Bytes) (m : Values) → bytes_lt j k ≡ true → Over k m → Over j m
Over-trans j k [] h over = tt
Over-trans j k ((i, v) ∷ m) h over = (bytes_lt_trans j k i h over.0, Over-trans j k m h over.1)

-- Keys that are not equal and not in one order are in the other.
bytes_lt_other : (j k : Bytes) → bytes_eq j k ≡ false → bytes_lt k j ≡ false → bytes_lt j k ≡ true
bytes_lt_other j k e h = elim (Bool-cases (bytes_lt j k)) [
  | inl lower ↦ lower
  | inr level ↦ ground (arith, bytes_lt_total j k level h, bytes_eq_iff j k)
]

Over-assign : (j k v : Bytes) (m : Values) → bytes_lt j k ≡ true → Over j m → Over j (assign k v m)
unfolding assign
Over-assign j k v [] h over = (h, tt)
Over-assign j k v ((i, w) ∷ m) h over = ground (arith, Over-assign j k v m h over.1)

pub assign-IsMap : (k v : Bytes) (m : Values) → IsMap m → IsMap (assign k v m)
unfolding assign
assign-IsMap k v [] h = (tt, tt)
assign-IsMap k v ((j, w) ∷ m) h = elim (Bool-cases (bytes_eq j k)) [
  | inl same ↦ rw same (subst (λ x. Over x m) ((bytes_eq_iff j k).0 same) h.0, h.1)
  | inr other ↦ elim (Bool-cases (bytes_lt k j)) [
    | inl lower ↦ rw (other, lower) ((lower, Over-trans k j m lower h.0), h)
    | inr upper ↦
        rw (other, upper)
          (Over-assign j k v m (bytes_lt_other j k other upper) h.0, assign-IsMap k v m h.1)
  ]
]

-- A key above all others is put last.
pub assign_last :
    (k v : Bytes) (m : Values)
    → All (λ (p : Bytes × Bytes). bytes_lt p.0 k ≡ true) m
    → assign k v m ≡ m ++ (k, v) ∷ []
unfolding assign
assign_last k v [] h = refl
assign_last k v ((j, w) ∷ m) h =
    ground
      (arith, bytes_eq_iff j k, bytes_lt_irrefl j, bytes_lt_asymm j k h.0, assign_last k v m h.1)

lookup-Over : (k : Bytes) (m : Values) → Over k m → lookup k m ≡ none
unfolding lookup
lookup-Over k [] h = refl
lookup-Over k ((j, w) ∷ m) h =
    ground (arith, bytes_eq_iff j k, bytes_lt_irrefl k, lookup-Over k m h.1)

pub lookup-erase_self : (k : Bytes) (m : Values) → IsMap m → lookup k (erase k m) ≡ none
unfolding lookup erase
lookup-erase_self k [] h = refl
lookup-erase_self k ((j, w) ∷ m) h = elim (Bool-cases (bytes_eq j k)) [
  | inl same ↦ rw same (lookup-Over k m (subst (λ x. Over x m) ((bytes_eq_iff j k).0 same) h.0))
  | inr other ↦ rw other (ground (arith, lookup-erase_self k m h.1))
]

Over-erase : (j k : Bytes) (m : Values) → Over j m → Over j (erase k m)
unfolding erase
Over-erase j k [] h = tt
Over-erase j k ((i, w) ∷ m) h = ground (arith, Over-erase j k m h.1)

pub erase-IsMap : (k : Bytes) (m : Values) → IsMap m → IsMap (erase k m)
unfolding erase
erase-IsMap k [] h = tt
erase-IsMap k ((j, w) ∷ m) h = ground (arith, Over-erase j k m h.0, erase-IsMap k m h.1)
