-- ===== src/Windows/Conserve.antt =====
-- A move of a tab, native_app.cpp, neither loses a tab nor doubles one.
use vant.Prelude.{
  ℕ, ◌+◌, ◌≡◌, refl, ap, subst, inl, inr, false, List, [], ◌∷◌, ◌++◌, some, arith, ◌==◌,
  if◌then◌else◌, drop, take, All, Bool-cases, take-append-drop,
}
use vant.Windows.{TabState, WindowState, find_window, update_window}
use vant.Windows.Opening.{insert_tab}

abbrev pub count_tabs : ℕ → List TabState → ℕ
count_tabs i [] = 0
count_tabs i (t ∷ ts) = (if t.id == i then 1 else 0) + count_tabs i ts

-- How many tabs of all windows have the id.
abbrev pub count_all : ℕ → List WindowState → ℕ
count_all i [] = 0
count_all i (w ∷ ws) = count_tabs i w.tabs + count_all i ws

-- No two windows have one id.
abbrev pub AreApart : List WindowState → Type 0
AreApart [] = Unit
AreApart (w ∷ ws) = All (λ (x : WindowState). (x.id == w.id) ≡ false) ws × AreApart ws

pub count_tabs-append :
    (i : ℕ) (xs ys : List TabState) → count_tabs i (xs ++ ys) ≡ count_tabs i xs + count_tabs i ys
count_tabs-append i [] ys = omega arith
count_tabs-append i (x ∷ xs) ys = omega (arith, count_tabs-append i xs ys)

pub count_tabs-insert :
    (i n : ℕ) (t : TabState) (ts : List TabState)
    → count_tabs i (insert_tab n t ts) ≡ (if t.id == i then 1 else 0) + count_tabs i ts
count_tabs-insert i n t ts = omega (
  arith,
  count_tabs-append i (take n ts) (t ∷ drop n ts),
  count_tabs-append i (take n ts) (drop n ts),
  ap (count_tabs i) (take-append-drop n ts),
)

pub find_window-id :
    (id : ℕ) (ws : List WindowState) (w : WindowState) → find_window id ws ≡ some w → w.id ≡ id
unfolding find_window
find_window-id id [] w e = ground arith
find_window-id id (x ∷ ws) w e = ground (arith, find_window-id id ws w)

update_absent :
    (id : ℕ) (w : WindowState) (ws : List WindowState)
    → All (λ (x : WindowState). (x.id == id) ≡ false) ws
    → update_window id (λ old. w) ws ≡ ws
unfolding update_window
update_absent id w [] h = refl
update_absent id w (x ∷ ws) h = rw (h.0, update_absent id w ws h.1) refl

-- An update exchanges the tabs of one window.
pub count_all-update :
    (i id : ℕ) (w w' : WindowState) (ws : List WindowState)
    → AreApart ws
    → find_window id ws ≡ some w
    → count_all i (update_window id (λ old. w') ws) + count_tabs i w.tabs
      ≡ count_all i ws + count_tabs i w'.tabs
unfolding find_window update_window
count_all-update i id w w' [] apart e = ground arith
count_all-update i id w w' (x ∷ ws) apart e = elim (Bool-cases (x.id == id)) [
  | inl hit ↦
      let same : x.id ≡ id = ground arith in
      let here : x ≡ w = ground arith in
      let rest =
        update_absent id w' ws
          (subst (λ k. All (λ (y : WindowState). (y.id == k) ≡ false) ws) same apart.0) in
      let tabs = ap (λ (y : WindowState). count_tabs i y.tabs) here in
      rw (hit, rest) (omega (arith, tabs))
  | inr miss ↦
      let later : find_window id ws ≡ some w = ground arith in
      rw miss (omega (arith, count_all-update i id w w' ws apart.1 later))
]

pub find-update_other :
    (j id : ℕ) (w : WindowState) (ws : List WindowState)
    → w.id ≡ id
    → (id == j) ≡ false
    → find_window j (update_window id (λ old. w) ws) ≡ find_window j ws
unfolding find_window update_window
find-update_other j id w [] e other = refl
find-update_other j id w (x ∷ ws) e other = ground (arith, find-update_other j id w ws e other)

update-Absent :
    (j id : ℕ) (w : WindowState) (ws : List WindowState)
    → w.id ≡ id
    → All (λ (x : WindowState). (x.id == j) ≡ false) ws
    → All (λ (x : WindowState). (x.id == j) ≡ false) (update_window id (λ old. w) ws)
unfolding update_window
update-Absent j id w [] e h = tt
update-Absent j id w (x ∷ ws) e h = ground (arith, update-Absent j id w ws e h.1)

pub update-AreApart :
    (id : ℕ) (w : WindowState) (ws : List WindowState)
    → w.id ≡ id
    → AreApart ws
    → AreApart (update_window id (λ old. w) ws)
unfolding update_window
update-AreApart id w [] e apart = tt
update-AreApart id w (x ∷ ws) e apart = elim (Bool-cases (x.id == id)) [
  | inl hit ↦
      let same : x.id ≡ w.id = ground arith in
      rw hit (
        subst (λ k. All (λ (y : WindowState). (y.id == k) ≡ false) (update_window id (λ old. w) ws))
            same (update-Absent x.id id w ws e apart.0),
        update-AreApart id w ws e apart.1,
      )
  | inr miss ↦ rw miss (update-Absent x.id id w ws e apart.0, update-AreApart id w ws e apart.1)
]
