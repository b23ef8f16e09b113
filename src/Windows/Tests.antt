-- ===== src/Windows/Tests.antt =====
-- The windows at concrete histories.
use vant.Prelude.{
  ℕ, ◌≡◌, refl, true, false, List, [], ◌∷◌, none, some, Bytes, codes, arith, bytes_eq,
}
use vant.Strings.{is_empty, starts_with, contains, until}
use vant.Navigation.{
  resolve, resolve_trimmed, trim, explicit_host_port, looks_like_host, resolve_scheme, lower,
}
use vant.Windows.Select.{tab_selected, tab_strip_scrolled}
use vant.Windows.Drag.{
  tab_drag_begin, tab_drag_cancel, queue_tab_detach, detach_tab_deferred, detach_source,
}
use vant.Events.{publish}
use vant.Windows.{
  TabState, WindowState, ApplicationState, TabPosition, update_window, tab_payload, publish_event,
  find_tab, find_position, find_window,
}
use vant.Windows.Tabs.{close_position, restore_address, select_tab, after_removal}
use vant.Windows.Opening.{NewView, create_window, open_tab, new_tab, fresh_window, load_decision}
use vant.Windows.Moves.{move_tab_to_window, transfer, give_away, receive}
use vant.Windows.Shape.{AllShaped}
use vant.Windows.History.{Step, launched, step, run, AllLive, run-AllShaped}
use vant.Windows.Conserve.{count_all}
use vant.Windows.Moved.{move_tab_to_window_lem}
use vant.Windows.Closed.{close_position-event}

abbrev emptied : Bytes → Bytes
emptied u = []

abbrev view : ℕ → NewView
view n = record { number = n; loaded = some (codes "https://nift.dev") }

abbrev session : List Step
session =
    Step.open_window (some (view 1)) (codes "vantage:new") false
    ∷ Step.open_tab (view 2) (codes "nift.dev") 1
    ∷ Step.select 1
    ∷ Step.scroll true true false 1
    ∷ Step.drag_begin 2
    ∷ Step.drag_cancel false 2
    ∷ Step.detach 2
    ∷ Step.close 1
    ∷ Step.reopen (view 3) 2
    ∷ []

session-AllLive : AllLive emptied session (launched false)
unfolding find_tab find_position step find_window create_window publish_event open_tab new_tab
    select_tab update_window launched fresh_window tab_selected tab_strip_scrolled tab_drag_begin
    tab_drag_cancel queue_tab_detach detach_tab_deferred detach_source move_tab_to_window
    load_decision resolve resolve_trimmed trim contains explicit_host_port starts_with
    looks_like_host is_empty bytes_eq until resolve_scheme lower transfer after_removal give_away
    receive
session-AllLive = (refl, (refl, (refl, (refl, (refl, (refl, (refl, (refl, (refl, tt)))))))))

run-AllShaped_example : AllShaped (run emptied session (launched false))
run-AllShaped_example = run-AllShaped emptied session false session-AllLive

abbrev two_windows : ApplicationState
two_windows =
    create_window (some (view 2)) (codes "nift.dev") false
      (create_window (some (view 1)) (codes "vantage:new") false (launched false))

move_tab_to_window_lem_example :
    ((move_tab_to_window 1 2 0 two_windows).1 ≡ false
      → (move_tab_to_window 1 2 0 two_windows).0 ≡ two_windows)
    × (count_all 1 (move_tab_to_window 1 2 0 two_windows).0.windows
        ≡ count_all 1 two_windows.windows)
unfolding create_window open_tab select_tab publish_event fresh_window update_window launched
move_tab_to_window_lem_example = move_tab_to_window_lem 1 2 0 1 two_windows ((refl, tt), (tt, tt))

abbrev shown : TabState
shown = record {
  id = 5;
  window = 1;
  view = 9;
  private_session = false;
  internal_uri = [];
  display_uri = codes "source:https://nift.dev";
  pending_web_uri = [];
  view_uri = none;
  can_return_to_new_tab = false;
  closing = false;
  user_stopped = false;
  recovering_blank_navigation = false;
}

abbrev one_of_two : TabPosition
one_of_two = record { before = []; tab = shown; after = record shown { id = 6; view = 10 } ∷ [] }

abbrev window : WindowState
window = record (fresh_window (launched false) false) {
  tabs = shown ∷ record shown { id = 6; view = 10 } ∷ [];
  view = some 9;
}

source_address : restore_address shown ≡ codes "https://nift.dev"
unfolding restore_address starts_with is_empty bytes_eq
source_address = refl

close_position-event_example :
    (close_position emptied one_of_two window (launched false)).agent_events
    ≡ (publish (launched false).agent_events (codes "tab.closed") (tab_payload 5 window.id [])).0
close_position-event_example =
    close_position-event emptied one_of_two window (launched false) (λ u. refl) (omega arith)
