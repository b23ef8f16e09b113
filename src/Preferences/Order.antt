-- ===== src/Preferences/Order.antt =====
-- The sorting of preferences.cpp's domains, and the removal of duplicates.
use vant.Prelude.{
  ◌≡◌, refl, ap, ◌∙◌, inl, inr, true, false, ◌||◌, List, [], ◌∷◌, arith, Bytes, bytes_eq,
  bytes_eq_iff, All, Bool-cases,
}
use vant.Preferences.{bytes_lt, insert_sorted, sort, unique_after, unique, has_domain}

pub bytes_lt_asymm : (a b : Bytes) → bytes_lt a b ≡ true → bytes_lt b a ≡ false
unfolding bytes_lt
bytes_lt_asymm [] [] h = refl
bytes_lt_asymm [] (y ∷ ys) h = refl
bytes_lt_asymm (x ∷ xs) [] h = cc
bytes_lt_asymm (x ∷ xs) (y ∷ ys) h = ground (arith, bytes_lt_asymm xs ys)

pub bytes_lt_irrefl : (a : Bytes) → bytes_lt a a ≡ false
unfolding bytes_lt
bytes_lt_irrefl [] = refl
bytes_lt_irrefl (x ∷ xs) = ground (arith, bytes_lt_irrefl xs)

-- Two texts with neither below the other are equal.
pub bytes_lt_total : (a b : Bytes) → bytes_lt a b ≡ false → bytes_lt b a ≡ false → a ≡ b
unfolding bytes_lt
bytes_lt_total [] [] h k = refl
bytes_lt_total [] (y ∷ ys) h k = cc
bytes_lt_total (x ∷ xs) [] h k = cc
bytes_lt_total (x ∷ xs) (y ∷ ys) h k = ground (arith, bytes_lt_total xs ys)

pub bytes_ge_trans :
    (a b c : Bytes) → bytes_lt b a ≡ false → bytes_lt c b ≡ false → bytes_lt c a ≡ false
unfolding bytes_lt
bytes_ge_trans [] [] [] h k = refl
bytes_ge_trans [] [] (z ∷ c) h k = refl
bytes_ge_trans [] (y ∷ b) [] h k = refl
bytes_ge_trans [] (y ∷ b) (z ∷ c) h k = refl
bytes_ge_trans (x ∷ a) [] c h k = cc
bytes_ge_trans (x ∷ a) (y ∷ b) [] h k = cc
bytes_ge_trans (x ∷ a) (y ∷ b) (z ∷ c) h k = ground (arith, bytes_ge_trans a b c)

abbrev pub Above : Bytes → List Bytes → Type 0
Above d = All (λ e. bytes_lt e d ≡ false)

abbrev pub IsSorted : List Bytes → Type 0
IsSorted [] = Unit
IsSorted (d ∷ ds) = Above d ds × IsSorted ds

Above-insert_sorted :
    (d e : Bytes) (es : List Bytes)
    → bytes_lt e d ≡ false
    → Above d es
    → Above d (insert_sorted e es)
unfolding insert_sorted
Above-insert_sorted d e [] h k = (h, tt)
Above-insert_sorted d e (x ∷ es) h k = ground (arith, Above-insert_sorted d e es h k.1)

Above-trans : (d e : Bytes) (es : List Bytes) → bytes_lt e d ≡ false → Above e es → Above d es
Above-trans d e [] h k = tt
Above-trans d e (x ∷ es) h k = (bytes_ge_trans d e x h k.0, Above-trans d e es h k.1)

insert_sorted-IsSorted : (d : Bytes) (es : List Bytes) → IsSorted es → IsSorted (insert_sorted d es)
unfolding insert_sorted
insert_sorted-IsSorted d [] h = (tt, tt)
insert_sorted-IsSorted d (e ∷ es) h = elim (Bool-cases (bytes_lt e d)) [
  | inl lower ↦
      rw lower
        (Above-insert_sorted e d es (bytes_lt_asymm e d lower) h.0, insert_sorted-IsSorted d es h.1)
  | inr upper ↦ rw upper ((upper, Above-trans d e es upper h.0), h)
]

pub sort-IsSorted : (ds : List Bytes) → IsSorted (sort ds)
unfolding sort
sort-IsSorted [] = tt
sort-IsSorted (d ∷ ds) = insert_sorted-IsSorted d (sort ds) (sort-IsSorted ds)

has_domain-insert_sorted :
    (x d : Bytes) (es : List Bytes)
    → has_domain x (insert_sorted d es) ≡ (bytes_eq d x || has_domain x es)
unfolding has_domain insert_sorted
has_domain-insert_sorted x d [] = refl
has_domain-insert_sorted x d (e ∷ es) = ground (arith, has_domain-insert_sorted x d es)

pub has_domain-sort : (x : Bytes) (ds : List Bytes) → has_domain x (sort ds) ≡ has_domain x ds
unfolding has_domain sort
has_domain-sort x [] = refl
has_domain-sort x (d ∷ ds) =
    has_domain-insert_sorted x d (sort ds) ∙ ap (λ b. bytes_eq d x || b) (has_domain-sort x ds)

has_domain-unique_after :
    (x last : Bytes) (ds : List Bytes)
    → (bytes_eq last x || has_domain x (unique_after last ds))
      ≡ (bytes_eq last x || has_domain x ds)
unfolding has_domain unique_after
has_domain-unique_after x last [] = refl
has_domain-unique_after x last (d ∷ ds) =
    ground (arith, bytes_eq_iff last d, has_domain-unique_after x d ds)

pub has_domain-unique : (x : Bytes) (ds : List Bytes) → has_domain x (unique ds) ≡ has_domain x ds
unfolding has_domain unique
has_domain-unique x [] = refl
has_domain-unique x (d ∷ ds) = has_domain-unique_after x d ds

-- No domain stands twice.
abbrev pub Distinct : List Bytes → Type 0
Distinct [] = Unit
Distinct (d ∷ ds) = (has_domain d ds ≡ false) × Distinct ds

-- A text below the head of a sorted list is not in it.
below-not_mem :
    (x d : Bytes) (ds : List Bytes) → bytes_lt x d ≡ true → Above d ds → has_domain x ds ≡ false
unfolding has_domain
below-not_mem x d [] h k = refl
below-not_mem x d (e ∷ ds) h k = ground (arith, bytes_eq_iff e x, below-not_mem x d ds h k.1)

Above-unique_after :
    (d last : Bytes) (ds : List Bytes) → Above d ds → Above d (unique_after last ds)
unfolding unique_after
Above-unique_after d last [] h = tt
Above-unique_after d last (e ∷ ds) h = ground (arith, Above-unique_after d e ds h.1)

unique_after-not_mem :
    (last : Bytes) (ds : List Bytes)
    → Above last ds
    → IsSorted ds
    → has_domain last (unique_after last ds) ≡ false
unfolding has_domain unique_after
unique_after-not_mem last [] h s = refl
unique_after-not_mem last (d ∷ ds) h s = elim (Bool-cases (bytes_lt last d)) [
  | inl lower ↦
      let rest = below-not_mem last d (unique_after d ds) lower (Above-unique_after d d ds s.0) in
      ground (
        arith,
        bytes_eq_iff last d,
        bytes_eq_iff d last,
        bytes_lt_asymm last d lower,
        bytes_lt_irrefl last,
        rest,
      )
  | inr level ↦
      let same = bytes_lt_total last d level h.0 in
      ground (arith, same, bytes_eq_iff last d, unique_after-not_mem d ds s.0 s.1)
]

unique_after-Distinct :
    (last : Bytes) (ds : List Bytes) → IsSorted ds → Distinct (unique_after last ds)
unfolding unique_after
unique_after-Distinct last [] s = tt
unique_after-Distinct last (d ∷ ds) s =
    ground (arith, unique_after-Distinct d ds s.1, unique_after-not_mem d ds s.0 s.1)

pub unique-Distinct : (ds : List Bytes) → IsSorted ds → Distinct (unique ds)
unfolding unique
unique-Distinct [] s = tt
unique-Distinct (d ∷ ds) s = (unique_after-not_mem d ds s.0 s.1, unique_after-Distinct d ds s.1)
