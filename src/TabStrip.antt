-- ===== src/TabStrip.antt =====
-- src/native_app.cpp, the tab sizing model: `tab_box_allocate`, with its constants. Widths are not
-- negative; a child is the drop placeholder or a tab, which knows whether its view is the active one.
pub mod Window
pub mod Slots
pub mod Tests
use vant.Prelude.{
  ℕ, suc, ◌+◌, ◌-◌, ◌*◌, ◌/◌, min, max, Bool, true, false, ◌&&◌, ◌||◌, List, [], ◌∷◌, Option, none,
  some, ltb, leb, if◌then◌else◌,
}

abbrev pub tab_minimum_width : ℕ
tab_minimum_width = 44

abbrev pub tab_natural_width : ℕ
tab_natural_width = 184

abbrev pub tab_title_cutoff_width : ℕ
tab_title_cutoff_width = 112

abbrev pub tab_close_cutoff_width : ℕ
tab_close_cutoff_width = 68

pub data Child : Type 0 where
  placeholder : ℕ → Child
  tab : Bool → Child

-- `placeholder_width`: the natural width of the placeholder, 0 without one.
unfoldable pub placeholder_width : List Child → ℕ → ℕ
placeholder_width [] found = found
placeholder_width (placeholder w ∷ cs) found = placeholder_width cs w
placeholder_width (tab a ∷ cs) found = placeholder_width cs found

unfoldable pub tab_count : List Child → ℕ
tab_count [] = 0
tab_count (placeholder w ∷ cs) = tab_count cs
tab_count (tab a ∷ cs) = suc (tab_count cs)

-- The search for the active tab; `i` counts the tabs.
unfoldable pub active_index : List Child → ℕ → ℕ → ℕ
active_index [] i found = found
active_index (placeholder w ∷ cs) i found = active_index cs i found
active_index (tab a ∷ cs) i found = active_index cs (i + 1) (if a then i else found)

abbrev pub overflows : ℕ → ℕ → Bool
overflows available count = ltb 0 count && ltb available (count * tab_minimum_width)

unfoldable pub visible_count : ℕ → ℕ → ℕ
visible_count available count =
    if overflows available count then min (max 1 (available / tab_minimum_width)) count else count

-- `std::clamp(active_index - visible_count + 1, 0, tab_count - visible_count)`.
unfoldable pub first_visible : ℕ → ℕ → ℕ → ℕ
first_visible available count active =
    let visible = visible_count available count in
    if overflows available count then min ((active + 1) - visible) (count - visible) else 0

unfoldable pub tab_width : ℕ → ℕ → ℕ
tab_width available visible =
    if ltb 0 visible && ltb available (visible * tab_natural_width)
    then max tab_minimum_width (available / visible)
    else tab_natural_width

-- Where a child is put; the title and the close button of a tab are shown from a width on.
pub record Slot : Type 0 where
  pub left : ℕ
  pub width : ℕ
  pub title : Bool
  pub close : Bool

abbrev pub is_visible : ℕ → ℕ → ℕ → Bool
is_visible first visible i = leb first i && ltb i (first + visible)

-- The last loop, with its `tab_index` and `x`; `none` is a hidden tab.
unfoldable pub place : ℕ → ℕ → ℕ → ℕ → List Child → ℕ → ℕ → List (Option Slot)
place reserved width first visible [] i x = []
place reserved width first visible (placeholder w ∷ cs) i x =
    some (record { left = x; width = reserved; title = false; close = false })
    ∷ place reserved width first visible cs i (x + reserved)
place reserved width first visible (tab a ∷ cs) i x =
    (if is_visible first visible i
      then some (record {
        left = x;
        width = width;
        title = leb tab_title_cutoff_width width;
        close = leb tab_close_cutoff_width width;
      })
      else none)
    ∷ place reserved width first visible cs (i + 1)
        (if is_visible first visible i then x + width else x)

-- `none` is the early return, which moves nothing.
unfoldable pub allocate : List Child → ℕ → ℕ → Option (List (Option Slot))
allocate children width height =
    let reserved = placeholder_width children 0 in
    let available = width - reserved in
    let count = tab_count children in
    let visible = visible_count available count in
    let first = first_visible available count (active_index children 0 0) in
    if ltb width 1 || ltb height 1
    then none
    else some (place reserved (tab_width available visible) first visible children 0 0)
