-- ===== src/Windows/Dragged.antt =====
-- src/native_app.cpp: what the handlers of a drag do to the shape of the windows.
use vant.Prelude.{
  ℕ, map, ◌≡◌, inl, inr, Bool, true, false, not, ◌&&◌, List, [], ◌∷◌, none, arith, if_intro, subst,
  sym, codes, All, Bool-cases, Option-cases,
}
use vant.Windows.{WindowState, ApplicationState, is_some_of, clear_tab_drop_placeholder}
use vant.Windows.Drag.{
  Pointer, accepted, tab_drop_position, queue_tab_detach, tab_drag_cancel, tab_drag_end, clear_open,
  show_tab_drop_placeholder, tab_drag_motion, drop_done, tab_dropped, detach_source,
  detach_tab_deferred,
}
use vant.Windows.Shape.{IsShaped, AllShaped, set_window-AllShaped}
use vant.Windows.Privacy.{create_window-AllShaped}
use vant.Windows.Transfers.{move-AllShaped}

pub cleared-IsShaped : (w : WindowState) → IsShaped w → IsShaped (clear_tab_drop_placeholder w)
unfolding clear_tab_drop_placeholder
cleared-IsShaped w h = record { owned = h.owned; showing = h.showing; limit = h.limit }

shown-IsShaped : (n : ℕ) (w : WindowState) → IsShaped w → IsShaped (show_tab_drop_placeholder n w)
unfolding show_tab_drop_placeholder
shown-IsShaped n w h = elim (Bool-cases w.tab_drop_shown) [
  | inl shown ↦ rw shown (record { owned = h.owned; showing = h.showing; limit = h.limit })
  | inr hidden ↦ rw hidden (record { owned = h.owned; showing = h.showing; limit = h.limit })
]

clear_open-All : (ws : List WindowState) → All IsShaped ws → All IsShaped (map clear_open ws)
clear_open-All [] h = tt
clear_open-All (w ∷ ws) h = (
  if_intro IsShaped w.closed w (clear_tab_drop_placeholder w) (λ shut. h.0)
      (λ open_one. cleared-IsShaped w h.0),
  clear_open-All ws h.1,
)

queue_tab_detach-windows :
    (tab : ℕ) (a : ApplicationState) → (queue_tab_detach tab a).windows ≡ a.windows
unfolding queue_tab_detach
queue_tab_detach-windows tab a = ground arith

queue_tab_detach-AllShaped :
    (tab : ℕ) (a : ApplicationState) → AllShaped a → AllShaped (queue_tab_detach tab a)
queue_tab_detach-AllShaped tab a all =
    subst (All IsShaped) (sym (queue_tab_detach-windows tab a)) all

pub drag_cancel-AllShaped :
    (by_user : Bool) (tab : ℕ) (a : ApplicationState)
    → AllShaped a
    → AllShaped (tab_drag_cancel by_user tab a).0
unfolding tab_drag_cancel
drag_cancel-AllShaped true tab a all = all
drag_cancel-AllShaped false tab a all =
    queue_tab_detach-AllShaped tab (record a { tab_drag_cancelled = true }) all

pub drag_end-AllShaped :
    (tab : ℕ) (a : ApplicationState) → AllShaped a → AllShaped (tab_drag_end tab a)
unfolding tab_drag_end
drag_end-AllShaped tab a all =
    let cleared : ApplicationState = record a { windows = map clear_open a.windows } in
    let shaped = clear_open-All a.windows all in
    if_intro AllShaped
      (is_some_of a.dragging_tab tab && not a.tab_drop_completed && not a.tab_drag_cancelled)
      (queue_tab_detach tab cleared) cleared
      (λ leaves. queue_tab_detach-AllShaped tab cleared shaped) (λ stays. shaped)

pub drag_motion-AllShaped :
    (pointer : Pointer) (w : WindowState) (a : ApplicationState)
    → IsShaped w
    → AllShaped a
    → AllShaped (tab_drag_motion pointer w a).0
unfolding tab_drag_motion
drag_motion-AllShaped pointer w a h all = elim (Option-cases (accepted a.dragging_tab a w)) [
  | inl no_way ↦ rw (no_way, tab_drag_motion) all
  | inr (tab, way) ↦
      rw (way, tab_drag_motion)
        (set_window-AllShaped (show_tab_drop_placeholder (tab_drop_position pointer w) w) a
          (shown-IsShaped (tab_drop_position pointer w) w h) all)
]

drop_done-AllShaped : (r : ApplicationState × Bool) → AllShaped r.0 → AllShaped (drop_done r).0
drop_done-AllShaped (a, true) all = all
drop_done-AllShaped (a, false) all = all

pub dropped-AllShaped :
    (pointer : Pointer) (w : WindowState) (a : ApplicationState)
    → IsShaped w
    → AllShaped a
    → AllShaped (tab_dropped pointer w a).0
unfolding tab_dropped
dropped-AllShaped pointer w a h all = elim (Option-cases (accepted a.dragging_tab a w)) [
  | inl no_way ↦ rw (no_way, tab_dropped) all
  | inr (tab, way) ↦
      rw (way, tab_dropped)
        (drop_done-AllShaped _ (
          move-AllShaped tab w.id (tab_drop_position pointer w) _
            (set_window-AllShaped (clear_tab_drop_placeholder w) a (cleared-IsShaped w h) all)))
]

pub detach-AllShaped :
    (tab : ℕ) (a : ApplicationState) → AllShaped a → AllShaped (detach_tab_deferred tab a)
unfolding detach_tab_deferred
detach-AllShaped tab a all = elim (Bool-cases (is_some_of a.pending_tab_detach tab)) [
  | inr other ↦ rw other all
  | inl waits ↦ elim (Option-cases (detach_source tab a.windows)) [
    | inl lost ↦ rw (waits, lost, detach_tab_deferred) all
    | inr (w, found) ↦
        rw (waits, found, detach_tab_deferred)
          (move-AllShaped tab a.next_window_id 0 _ (
            create_window-AllShaped none (codes "vantage:new") w.private_mode
              (record a { tab_detach_source = false; pending_tab_detach = none }) all))
  ]
]
