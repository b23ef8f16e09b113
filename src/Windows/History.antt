-- ===== src/Windows/History.antt =====
-- The handlers of native_app.cpp that change its windows and tabs, one after another.
use vant.Prelude.{
  ℕ, ◌≡◌, inl, inr, Bool, true, false, List, [], ◌∷◌, Option, none, some, Bytes, Option-cases,
}
use vant.Events.{create}
use vant.Windows.{
  WindowState, ApplicationState, find_tab, find_window, clear_tab_drop_placeholder, window_closing,
}
use vant.Windows.Tabs.{close_tab, queue_tab_close}
use vant.Windows.Opening.{NewView, create_window, new_tab, reopen_closed_tab}
use vant.Windows.Moves.{move_tab_to_window}
use vant.Windows.Drag.{
  Pointer, tab_drag_begin, tab_drag_cancel, tab_drag_end, tab_drag_motion, tab_drag_left,
  tab_dropped, detach_tab_deferred,
}
use vant.Windows.Shape.{IsShaped, AllShaped, set_window-AllShaped, find_window-All}
use vant.Windows.Keeps.{close_tab-AllShaped, queue_tab_close-AllShaped, window_closing-AllShaped}
use vant.Windows.Privacy.{create_window-AllShaped, new_tab-AllShaped, reopen-AllShaped}
use vant.Windows.Transfers.{move-AllShaped}
use vant.Windows.Dragged.{
  cleared-IsShaped, drag_cancel-AllShaped, drag_end-AllShaped, drag_motion-AllShaped,
  dropped-AllShaped, detach-AllShaped,
}
use vant.Windows.Select.{
  tab_selected, tab_strip_scrolled, tab_selected-AllShaped, scrolled-AllShaped,
}

unfoldable pub launched : Bool → ApplicationState
launched app_mode = record {
  next_window_id = 1;
  next_tab_id = 1;
  app_mode = app_mode;
  windows = [];
  dragging_tab = none;
  pending_tab_detach = none;
  tab_detach_source = false;
  tab_drop_completed = false;
  tab_drag_cancelled = false;
  agent_events = create 2048;
  find_calls = [];
}

-- The first number is the tab's or, where a window is acted on, the window's.
pub data Step : Type 0 where
  open_window : Option NewView → Bytes → Bool → Step
  open_tab : NewView → Bytes → ℕ → Step
  reopen : NewView → ℕ → Step
  shut_window close queue_close select : ℕ → Step
  scroll : Bool → Bool → Bool → ℕ → Step
  move : ℕ → ℕ → ℕ → Step
  drag_begin drag_end drag_left detach : ℕ → Step
  drag_cancel : Bool → ℕ → Step
  drag_motion drop : Pointer → ℕ → Step

-- A handler of a window that is there.
abbrev on_window :
    Option WindowState → ApplicationState → (WindowState → ApplicationState) → ApplicationState
on_window none a k = a
on_window (some w) a k = k w

unfoldable pub step : (Bytes → Bytes) → Step → ApplicationState → ApplicationState
step moved_from (open_window v uri private_mode) a = create_window v uri private_mode a
step moved_from (open_tab v uri w) a =
    on_window (find_window w a.windows) a (λ w. new_tab v uri w a)
step moved_from (reopen v w) a = reopen_closed_tab v w a
step moved_from (shut_window w) a = on_window (find_window w a.windows) a (λ w. window_closing w a)
step moved_from (close t) a = close_tab moved_from t a
step moved_from (queue_close t) a = (queue_tab_close t a).0
step moved_from (select t) a = tab_selected t a
step moved_from (scroll moves down again w) a =
    on_window (find_window w a.windows) a (λ w. (tab_strip_scrolled moves down again w a).0)
step moved_from (move t w destination) a = (move_tab_to_window t w destination a).0
step moved_from (drag_begin t) a = tab_drag_begin t a
step moved_from (drag_end t) a = tab_drag_end t a
step moved_from (drag_left w) a = on_window (find_window w a.windows) a (λ w. tab_drag_left w a)
step moved_from (detach t) a = detach_tab_deferred t a
step moved_from (drag_cancel by_user t) a = (tab_drag_cancel by_user t a).0
step moved_from (drag_motion pointer w) a =
    on_window (find_window w a.windows) a (λ w. (tab_drag_motion pointer w a).0)
step moved_from (drop pointer w) a =
    on_window (find_window w a.windows) a (λ w. (tab_dropped pointer w a).0)

unfoldable pub run : (Bytes → Bytes) → List Step → ApplicationState → ApplicationState
run moved_from [] a = a
run moved_from (s ∷ ss) a = run moved_from ss (step moved_from s a)

-- The tab that a step points to. It does not go through the program's own pointers where the step is
-- about a window or opens something.
abbrev pointee : Step → ApplicationState → Option ℕ
pointee (open_window v uri private_mode) a = none
pointee (open_tab v uri w) a = none
pointee (reopen v w) a = none
pointee (shut_window w) a = none
pointee (scroll moves down again w) a = none
pointee (drag_left w) a = none
pointee (close t) a = some t
pointee (queue_close t) a = some t
pointee (select t) a = some t
pointee (move t w destination) a = some t
pointee (drag_begin t) a = some t
pointee (drag_end t) a = some t
pointee (detach t) a = some t
pointee (drag_cancel by_user t) a = some t
pointee (drag_motion pointer w) a = a.dragging_tab
pointee (drop pointer w) a = a.dragging_tab

abbrev is_tab_there : Option ℕ → ApplicationState → Bool
is_tab_there none a = true
is_tab_there (some t) a = elim (find_tab t a.windows) [ none ↦ false | some tab ↦ true ]

-- No step reads a tab that is gone, which the program would have freed.
abbrev pub AllLive : (Bytes → Bytes) → List Step → ApplicationState → Type 0
AllLive moved_from [] a = Unit
AllLive moved_from (s ∷ ss) a =
    (is_tab_there (pointee s a) a ≡ true) × AllLive moved_from ss (step moved_from s a)

on_window-AllShaped :
    (id : ℕ) (a : ApplicationState) (k : WindowState → ApplicationState)
    → AllShaped a
    → ((w : WindowState) → IsShaped w → AllShaped (k w))
    → AllShaped (on_window (find_window id a.windows) a k)
on_window-AllShaped id a k all h = elim (Option-cases (find_window id a.windows)) [
  | inl lost ↦ rw lost all
  | inr (w, found) ↦ rw found (h w (find_window-All IsShaped id a.windows w all found))
]

step-AllShaped :
    (moved_from : Bytes → Bytes) (s : Step) (a : ApplicationState)
    → AllShaped a
    → AllShaped (step moved_from s a)
unfolding step
step-AllShaped m (open_window v uri p) a all = create_window-AllShaped v uri p a all
step-AllShaped m (open_tab v uri id) a all =
    on_window-AllShaped id a (λ w. new_tab v uri w a) all
      (λ w h. new_tab-AllShaped v uri w a h.owned h.limit all)
step-AllShaped m (reopen v id) a all = reopen-AllShaped v id a all
step-AllShaped m (shut_window id) a all =
    on_window-AllShaped id a (λ w. window_closing w a) all
      (λ w h. window_closing-AllShaped w a h all)
step-AllShaped m (close t) a all = close_tab-AllShaped m t a all
step-AllShaped m (queue_close t) a all = queue_tab_close-AllShaped t a all
step-AllShaped m (select t) a all = tab_selected-AllShaped t a all
step-AllShaped m (scroll moves down again id) a all =
    on_window-AllShaped id a (λ w. (tab_strip_scrolled moves down again w a).0) all
      (λ w h. scrolled-AllShaped moves down again w a h all)
step-AllShaped m (move t w d) a all = move-AllShaped t w d a all
step-AllShaped m (drag_begin t) a all = unfold tab_drag_begin in all
step-AllShaped m (drag_end t) a all = drag_end-AllShaped t a all
step-AllShaped m (drag_left id) a all =
    on_window-AllShaped id a (λ w. tab_drag_left w a) all
      (λ w h.
        unfold tab_drag_left in
        set_window-AllShaped (clear_tab_drop_placeholder w) a (cleared-IsShaped w h) all)
step-AllShaped m (detach t) a all = detach-AllShaped t a all
step-AllShaped m (drag_cancel u t) a all = drag_cancel-AllShaped u t a all
step-AllShaped m (drag_motion pointer id) a all =
    on_window-AllShaped id a (λ w. (tab_drag_motion pointer w a).0) all
      (λ w h. drag_motion-AllShaped pointer w a h all)
step-AllShaped m (drop pointer id) a all =
    on_window-AllShaped id a (λ w. (tab_dropped pointer w a).0) all
      (λ w h. dropped-AllShaped pointer w a h all)

run-keeps :
    (moved_from : Bytes → Bytes) (ss : List Step) (a : ApplicationState)
    → AllShaped a
    → AllShaped (run moved_from ss a)
unfolding run
run-keeps m [] a all = all
run-keeps m (s ∷ ss) a all = run-keeps m ss (step m s a) (step-AllShaped m s a all)

-- From a launched application, after any sequence of opening, closing, selecting, scrolling,
-- reopening, moving and dragging tabs and windows in which no step reads a tab that is gone: every tab
-- points to the window that has it, and a tab of a private session is in a private window and of a
-- normal session in a normal one; a window with tabs shows one of its own; and no window keeps more
-- than 25 closed addresses.
pub run-AllShaped :
    (moved_from : Bytes → Bytes) (ss : List Step) (app_mode : Bool)
    → AllLive moved_from ss (launched app_mode)
    → AllShaped (run moved_from ss (launched app_mode))
unfolding launched
run-AllShaped m ss app_mode live = run-keeps m ss (launched app_mode) tt
