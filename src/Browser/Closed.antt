-- ===== src/Browser/Closed.antt =====
-- The vector of closed tabs and the choice of the neighbour in `close_tab` of browser_model.cpp.
use vant.Prelude.{
  ℕ, ◌-◌, ◌≤◌, ◌<◌, ◌≡◌, refl, min, inl, inr, List, [], ◌∷◌, ◌++◌, none, some, arith, Option-cases,
  length, get_elem?, drop, length-append, All, All-append,
}
use vant.Browser.{Tab, closed, remember, neighbour, pop_back}
use vant.Browser.Counts.{count_id}

length-drop_one : (ts : List Tab) → length (drop 1 ts) ≡ length ts - 1
length-drop_one [] = refl
length-drop_one (t ∷ ts) = omega arith

pub length-remember :
    (limit : ℕ) (kept : List Tab) (t : Tab)
    → length kept ≤ limit
    → length (remember limit kept t) ≤ limit
unfolding remember
length-remember limit kept t h =
    let u = record t { lifecycle = closed } in
    ground (arith, length-append kept (u ∷ []), length-drop_one (kept ++ (u ∷ [])))

abbrev pub IsClosed : Tab → Type 0
IsClosed t = t.lifecycle ≡ closed

All-drop_one : (ts : List Tab) → All IsClosed ts → All IsClosed (drop 1 ts)
All-drop_one [] h = tt
All-drop_one (t ∷ ts) h = h.1

pub remember-All :
    (limit : ℕ) (kept : List Tab) (t : Tab)
    → All IsClosed kept
    → All IsClosed (remember limit kept t)
unfolding remember
remember-All limit kept t h =
    let u = record t { lifecycle = closed } in
    let pushed = All-append IsClosed kept (u ∷ []) h (refl, tt) in
    ground (arith, pushed, All-drop_one (kept ++ (u ∷ [])) pushed)

get_elem?-count_id :
    (ts : List Tab) (i : ℕ) (t : Tab) → get_elem? ts i ≡ some t → 0 < count_id t.id ts
get_elem?-count_id [] i t e = cc
get_elem?-count_id (x ∷ ts) ℕ.zero t e = ground arith
get_elem?-count_id (x ∷ ts) (ℕ.suc i) t e = ground (arith, get_elem?-count_id ts i t e)

get_elem?-lt : (ts : List Tab) (i : ℕ) → i < length ts → (t : Tab) × (get_elem? ts i ≡ some t)
get_elem?-lt [] i h = absurd (omega arith)
get_elem?-lt (x ∷ ts) ℕ.zero h = (x, refl)
get_elem?-lt (x ∷ ts) (ℕ.suc i) h = get_elem?-lt ts i (omega arith)

-- Of a vector that is not empty the neighbour is one of its tabs.
pub neighbour-count_id :
    (t : Tab) (ts : List Tab) (i : ℕ)
    → (a : ℕ) × (neighbour (t ∷ ts) i ≡ some a) × (0 < count_id a (t ∷ ts))
unfolding neighbour
neighbour-count_id t ts i =
    let (u, e) = get_elem?-lt (t ∷ ts) (min i (length (t ∷ ts) - 1)) (omega arith) in
    (u.id, rw e, get_elem?-count_id (t ∷ ts) _ u e)

pub neighbour_sound : (ts : List Tab) (i a : ℕ) → neighbour ts i ≡ some a → 0 < count_id a ts
unfolding neighbour
neighbour_sound [] i a e = cc
neighbour_sound (t ∷ ts) i a e =
    let (b, f, c) = neighbour-count_id t ts i in unfold neighbour in ground (arith, f)

pub pop_back-none : (ts : List Tab) → pop_back ts ≡ none → ts ≡ []
unfolding pop_back
pop_back-none [] e = refl
pop_back-none (t ∷ ts) e = ground arith

pub pop_back-some :
    (ts kept : List Tab) (t : Tab) → pop_back ts ≡ some (kept, t) → ts ≡ kept ++ (t ∷ [])
unfolding pop_back
pop_back-some [] kept t e = cc
pop_back-some (x ∷ ts) kept t e = elim (Option-cases (pop_back ts)) [
  | inl miss ↦ ground (arith, pop_back-none ts miss)
  | inr ((rest, u), found) ↦ ground (arith, pop_back-some ts rest u found)
]
