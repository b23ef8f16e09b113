-- ===== src/Windows/Drag.antt =====
-- src/native_app.cpp: dragging a tab, within the windows and out of them. Where the pointer is against
-- the tabs is a parameter: for a tab, whether it is left of the tab's middle, or `none` where GTK
-- computes no bounds.
use vant.Prelude.{
  ℕ, ◌+◌, min, Bool, true, false, not, ◌&&◌, ◌||◌, List, [], ◌∷◌, Option, none, some, ltb, ◌==◌,
  if◌then◌else◌, codes, length, map,
}
use vant.Windows.{
  TabState, WindowState, ApplicationState, is_some_of, find_position, find_tab, find_window,
  set_window, clear_tab_drop_placeholder,
}
use vant.Windows.Opening.{create_window}
use vant.Windows.Moves.{move_tab_to_window}

abbrev pub Pointer : Type 0
Pointer = ℕ → Option Bool

abbrev is_left : Option Bool → Bool
is_left none = false
is_left (some left) = left

-- The loop of `tab_drop_position`.
unfoldable pub drop_position : Pointer → ℕ → List TabState → ℕ
drop_position pointer index [] = index
drop_position pointer index (t ∷ ts) =
    let rest = drop_position pointer (index + 1) ts in
    if is_left (pointer t.id) then index else rest

abbrev pub tab_drop_position : Pointer → WindowState → ℕ
tab_drop_position pointer w = drop_position pointer 0 w.tabs

unfoldable pub tab_drag_begin : ℕ → ApplicationState → ApplicationState
tab_drag_begin tab a = record a {
  dragging_tab = some tab;
  tab_drop_completed = false;
  tab_drag_cancelled = false;
}

unfoldable pub queue_tab_detach : ℕ → ApplicationState → ApplicationState
queue_tab_detach tab a = elim a.pending_tab_detach [
  | none ↦ record a { pending_tab_detach = some tab; tab_detach_source = true }
  | some other ↦ a
]

-- `by_user` is the reason `GDK_DRAG_CANCEL_USER_CANCELLED`; the result tells that it was handled.
unfoldable pub tab_drag_cancel : Bool → ℕ → ApplicationState → ApplicationState × Bool
unfolding queue_tab_detach
tab_drag_cancel by_user tab a =
    let cancelled : ApplicationState = record a { tab_drag_cancelled = true } in
    if by_user then (cancelled, false) else (queue_tab_detach tab cancelled, true)

abbrev pub clear_open : WindowState → WindowState
clear_open w = if w.closed then w else clear_tab_drop_placeholder w

unfoldable pub tab_drag_end : ℕ → ApplicationState → ApplicationState
unfolding queue_tab_detach
tab_drag_end tab a =
    let cleared : ApplicationState = record a { windows = map clear_open a.windows } in
    let queued =
      if is_some_of a.dragging_tab tab && not a.tab_drop_completed && not a.tab_drag_cancelled
      then queue_tab_detach tab cleared
      else cleared in
    record queued { dragging_tab = none; tab_drop_completed = false; tab_drag_cancelled = false }

unfoldable pub show_tab_drop_placeholder : ℕ → WindowState → WindowState
show_tab_drop_placeholder destination w =
    let placed : WindowState = record w { tab_drop_index = min destination (length w.tabs) } in
    if w.tab_drop_shown
    then placed
    else record placed { tab_drop_width = 0; tab_drop_shown = true; tab_drop_animation = true }

-- A round of the animation, and whether it goes on.
unfoldable pub expand_tab_drop_placeholder : WindowState → WindowState × Bool
expand_tab_drop_placeholder w =
    let width = min (w.tab_drop_width + 6) 30 in
    if ltb width 30
    then (record w { tab_drop_width = width }, true)
    else (record w { tab_drop_width = width; tab_drop_animation = false }, false)

unfoldable pub window_private : ℕ → List WindowState → Bool
window_private id ws = elim (find_window id ws) [ none ↦ false | some w ↦ w.private_mode ]

abbrev same_bool : Bool → Bool → Bool
same_bool a b = if a then b else not b

-- Whether the dragged tab may be dropped on the target: the windows are both private or both not.
-- The pointer to a dragged tab that is gone, whose memory the program reads, is outside the model:
-- here it is accepted by no window.
abbrev pub accepted : Option ℕ → ApplicationState → WindowState → Option ℕ
accepted none a target = none
accepted (some tab) a target = elim (find_tab tab a.windows) [
  | none ↦ none
  | some t ↦
      if same_bool (window_private t.window a.windows) target.private_mode then some tab else none
]

unfoldable pub tab_drag_motion : Pointer → WindowState → ApplicationState → ApplicationState × Bool
unfolding show_tab_drop_placeholder
tab_drag_motion pointer target a = elim (accepted a.dragging_tab a target) [
  | none ↦ (a, false)
  | some tab ↦
      (set_window (show_tab_drop_placeholder (tab_drop_position pointer target) target) a, true)
]

unfoldable pub tab_drag_left : WindowState → ApplicationState → ApplicationState
tab_drag_left target a = set_window (clear_tab_drop_placeholder target) a

abbrev pub drop_done : ApplicationState × Bool → ApplicationState × Bool
drop_done (a, moved) = if moved then (record a { tab_drop_completed = true }, true) else (a, false)

unfoldable pub tab_dropped : Pointer → WindowState → ApplicationState → ApplicationState × Bool
tab_dropped pointer target a = elim (accepted a.dragging_tab a target) [
  | none ↦ (a, false)
  | some tab ↦ drop_done (
      move_tab_to_window tab target.id (tab_drop_position pointer target)
        (set_window (clear_tab_drop_placeholder target) a))
]

-- The window that the search of `detach_tab_deferred` finds.
unfoldable pub detach_source : ℕ → List WindowState → Option WindowState
detach_source tab [] = none
detach_source tab (w ∷ ws) =
    let later = detach_source tab ws in
    if w.closed || w.app_mode
    then later
    else elim (find_position (λ t. t.id == tab) w.tabs) [ none ↦ later | some p ↦ some w ]

-- `owner->windows.back()` behind `create_window` is the window with the number before the next.
unfoldable pub detach_tab_deferred : ℕ → ApplicationState → ApplicationState
detach_tab_deferred tab a =
    if not (is_some_of a.pending_tab_detach tab)
    then a
    else (let idle : ApplicationState = record a {
      tab_detach_source = false;
      pending_tab_detach = none;
    } in
        elim (detach_source tab a.windows) [
          | none ↦ idle
          | some source ↦
              (move_tab_to_window tab a.next_window_id 0
                (create_window none (codes "vantage:new") source.private_mode idle)).0
        ])
