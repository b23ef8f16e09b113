-- ===== src/Browser/Counts.antt =====
-- How often an id stands in a vector of tabs, and what the search of browser_model.cpp finds.
use vant.Prelude.{
  ℕ, ◌+◌, ◌≤◌, ◌<◌, ◌≡◌, refl, ◌⊎◌, inl, inr, Bool, true, false, List, [], ◌∷◌, ◌++◌, Option, none,
  some, arith, ◌==◌, if◌then◌else◌, Option-cases, length, take, drop, take-append-drop,
}
use vant.Browser.{Tab, Position, find_if}

abbrev pub count_id : ℕ → List Tab → ℕ
count_id i [] = 0
count_id i (t ∷ ts) = (if t.id == i then 1 else 0) + count_id i ts

pub count_id-append :
    (i : ℕ) (xs ys : List Tab) → count_id i (xs ++ ys) ≡ count_id i xs + count_id i ys
count_id-append i [] ys = omega arith
count_id-append i (x ∷ xs) ys = omega (arith, count_id-append i xs ys)

-- An insertion at any place counts as one in front.
pub count_id-insert :
    (i n : ℕ) (t : Tab) (ts : List Tab)
    → count_id i (take n ts ++ (t ∷ drop n ts)) ≡ count_id i (t ∷ ts)
count_id-insert i n t ts = omega (
  arith,
  count_id-append i (take n ts) (t ∷ drop n ts),
  count_id-append i (take n ts) (drop n ts),
  vant.Prelude.ap (count_id i) (take-append-drop n ts),
)

-- What the position found by `find_if` says of the vector.
pub record Splits (id : ℕ) (ts : List Tab) (p : Position) : Type 0 where
  pub whole : ts ≡ p.before ++ (p.tab ∷ p.after)
  pub hit : p.tab.id ≡ id
  pub first : count_id id p.before ≡ 0

pub find_if-Splits :
    (id : ℕ) (ts : List Tab) (p : Position) → find_if id ts ≡ some p → Splits id ts p
unfolding find_if
find_if-Splits id [] p e = cc
find_if-Splits id (t ∷ ts) p e = elim (Option-cases (find_if id ts)) [
  | inl miss ↦ ground arith
  | inr (q, found) ↦ ground (arith, find_if-Splits id ts q found)
]

pub find_if-none : (id : ℕ) (ts : List Tab) → find_if id ts ≡ none → count_id id ts ≡ 0
unfolding find_if
find_if-none id [] e = refl
find_if-none id (t ∷ ts) e = elim (Option-cases (find_if id ts)) [
  | inl miss ↦ ground (arith, find_if-none id ts miss)
  | inr (q, found) ↦ ground arith
]
