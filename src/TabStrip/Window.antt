-- ===== src/TabStrip/Window.antt =====
-- The window of visible tabs and their width, in `tab_box_allocate` of native_app.cpp.
use vant.Prelude.{
  ℕ, ◌+◌, ◌*◌, ◌/◌, ◌≤◌, ◌<◌, ◌≡◌, max, ◌&&◌, List, [], ◌∷◌, inl, inr, arith, ltb, Bool-cases,
}
use native.Mathlib.Nat.{div-lt_iff_lt-mul, le-div_iff_mul-le, mul-div-le}
use vant.TabStrip.{
  Child, placeholder, tab, visible_count, first_visible, tab_width, tab_count, active_index,
}

-- The visible tabs are a contiguous range of the tabs that holds the active one, and at least one.
pub first_visible_lem :
    (available count active : ℕ)
    → active < count
    → let visible = visible_count available count in
      let first = first_visible available count active in
      (1 ≤ visible) × (first ≤ active) × (active < first + visible) × (first + visible ≤ count)
unfolding visible_count first_visible
first_visible_lem available count active h = ground arith

-- All tabs are visible exactly when every tab has room for its minimum width.
pub visible_count-all :
    (available count : ℕ) → count * 44 ≤ available → visible_count available count ≡ count
unfolding visible_count
visible_count-all available count h = ground arith

div_short : (available n : ℕ) → 0 < n → available < n * 184 → max 44 (available / n) ≤ 184
div_short available n pos h =
    let small : available / n < 184 = (div-lt_iff_lt-mul pos).1 (omega arith) in omega arith

max_fits : (available n : ℕ) → 0 < n → n * 44 ≤ available → n * max 44 (available / n) ≤ available
max_fits available n pos h =
    let wide : 44 ≤ available / n = (le-div_iff_mul-le pos).1 (omega arith) in
    let same : max 44 (available / n) ≡ available / n = omega arith in
    rw same (mul-div-le available n)

width_bounds : (available n : ℕ) → (44 ≤ tab_width available n) × (tab_width available n ≤ 184)
unfolding tab_width
width_bounds available n = elim (Bool-cases (ltb 0 n && ltb available (n * 184))) [
  | inl short ↦
      rw (short, tab_width) (omega arith, div_short available n (ground arith) (ground arith))
  | inr long ↦ rw (long, tab_width) (omega arith, omega arith)
]

width_fits : (available n : ℕ) → n * 44 ≤ available → n * tab_width available n ≤ available
unfolding tab_width
width_fits available n h = elim (Bool-cases (ltb 0 n && ltb available (n * 184))) [
  | inl short ↦ rw (short, tab_width) (max_fits available n (ground arith) h)
  | inr long ↦ rw (long, tab_width) (ground arith)
]

-- A tab is never narrower than the minimum nor wider than the natural width.
pub tab_width_bounds :
    (available count : ℕ)
    → let w = tab_width available (visible_count available count) in (44 ≤ w) × (w ≤ 184)
tab_width_bounds available count = width_bounds available (visible_count available count)

visible_count_fits :
    (available count : ℕ) → 44 ≤ available → visible_count available count * 44 ≤ available
unfolding visible_count
visible_count_fits available count h = ground arith

-- With room for one tab the visible tabs fit in what is available.
pub tab_width_fits :
    (available count : ℕ)
    → 44 ≤ available
    → let visible = visible_count available count in
      visible * tab_width available visible ≤ available
tab_width_fits available count h =
    width_fits available (visible_count available count) (visible_count_fits available count h)

-- The index that the search returns is that of a tab.
pub active_index-lt :
    (children : List Child) (i found : ℕ)
    → found < i + tab_count children
    → active_index children i found < i + tab_count children
unfolding active_index tab_count
active_index-lt [] i found h = h
active_index-lt (placeholder w ∷ cs) i found h = active_index-lt cs i found h
active_index-lt (tab a ∷ cs) i found h =
    ground (arith, active_index-lt cs (i + 1) i, active_index-lt cs (i + 1) found)
