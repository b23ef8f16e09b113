-- ===== src/Windows/Drops.antt =====
-- How a drag of a tab ends, native_app.cpp.
use vant.Prelude.{
  ℕ, ◌+◌, ◌≤◌, ◌≡◌, Bool, true, false, not, List, [], ◌∷◌, none, some, arith, if◌then◌else◌, length,
}
use vant.Windows.{TabState, WindowState, ApplicationState}
use vant.Windows.Drag.{
  Pointer, drop_position, tab_drop_position, tab_drag_begin, tab_drag_cancel, tab_drag_end,
  show_tab_drop_placeholder,
}

-- How a drag goes that no window took.
pub data Gesture : Type 0 where
  released : Gesture
  cancelled : Bool → Gesture

abbrev pub drag_untaken : Gesture → ℕ → ApplicationState → ApplicationState
drag_untaken released tab a = tab_drag_end tab (tab_drag_begin tab a)
drag_untaken (cancelled by_user) tab a =
    tab_drag_end tab (tab_drag_cancel by_user tab (tab_drag_begin tab a)).0

abbrev pub leaves : Gesture → Bool
leaves released = true
leaves (cancelled by_user) = not by_user

-- A drag that no window takes, where no detach waits, ends with the tab waiting to be detached,
-- exactly unless the user cancelled it, and with nothing left of the drag.
pub drag_untaken_lem :
    (g : Gesture) (tab : ℕ) (a : ApplicationState)
    → a.pending_tab_detach ≡ none
    → ((drag_untaken g tab a).pending_tab_detach ≡ (if leaves g then some tab else none))
      × ((drag_untaken g tab a).dragging_tab ≡ none)
      × ((drag_untaken g tab a).tab_drop_completed ≡ false)
      × ((drag_untaken g tab a).tab_drag_cancelled ≡ false)
unfolding tab_drag_begin tab_drag_cancel tab_drag_end
drag_untaken_lem released tab a h = ground arith
drag_untaken_lem (cancelled true) tab a h = ground arith
drag_untaken_lem (cancelled false) tab a h = ground arith

-- A drag that a window took waits for no detach.
pub drag_taken :
    (tab : ℕ) (a : ApplicationState)
    → a.tab_drop_completed ≡ true
    → (tab_drag_end tab a).pending_tab_detach ≡ a.pending_tab_detach
unfolding tab_drag_end
drag_taken tab a h = ground arith

drop_position-le :
    (pointer : Pointer) (index : ℕ) (ts : List TabState)
    → (index ≤ drop_position pointer index ts)
      × (drop_position pointer index ts ≤ index + length ts)
unfolding drop_position
drop_position-le pointer index [] = omega arith
drop_position-le pointer index (t ∷ ts) = ground (arith, drop_position-le pointer (index + 1) ts)

-- The place where a tab is dropped, and the placeholder shown, is one of the window's or its end.
pub tab_drop_position_bounds :
    (pointer : Pointer) (w : WindowState)
    → (tab_drop_position pointer w ≤ length w.tabs)
      × ((show_tab_drop_placeholder (tab_drop_position pointer w) w).tab_drop_index
          ≡ tab_drop_position pointer w)
unfolding show_tab_drop_placeholder
tab_drop_position_bounds pointer w = ground (arith, drop_position-le pointer 0 w.tabs)
