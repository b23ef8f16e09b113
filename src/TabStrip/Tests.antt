-- ===== src/TabStrip/Tests.antt =====
-- Runs of the tab strip's layout, and its theorems at concrete strips.
use vant.Prelude.{ℕ, ◌≤◌, ◌≡◌, refl, true, false, List, [], ◌∷◌, Option, some, none, arith}
use vant.TabStrip.{
  Child, placeholder, tab, Slot, allocate, place, placeholder_width, tab_count, active_index,
  visible_count, first_visible, tab_width,
}
use vant.TabStrip.Slots.{Tiles, allocate-Tiles}

abbrev strip : List Child
strip = tab false ∷ placeholder 30 ∷ tab true ∷ tab false ∷ []

abbrev strip_slots : List (Option Slot)
strip_slots =
    none
    ∷ some (record { left = 0; width = 30; title = false; close = false })
    ∷ some (record { left = 30; width = 50; title = false; close = false })
    ∷ none
    ∷ []

allocate-strip : allocate strip 80 38 ≡ some strip_slots
unfolding allocate place placeholder_width tab_count active_index visible_count first_visible
    tab_width
allocate-strip = refl

allocate-Tiles_example : (end : ℕ) × Tiles 0 end strip_slots × (end ≤ 80)
unfolding placeholder_width
allocate-Tiles_example =
    allocate-Tiles strip 80 38 strip_slots allocate-strip (omega arith) (omega arith)
