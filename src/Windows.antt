-- ===== src/Windows.antt =====
-- src/native_app.cpp: the state of the windows and their tabs, what the handlers look up in it, and
-- the events that agents are told. A `TabState *` is the tab's id and a `WindowState *` the window's;
-- what GTK and WebKit draw is left out. The addresses that WebKit has for a view stand in the tab.
pub mod Tabs
pub mod Opening
pub mod Moves
pub mod Drag
pub mod Shape
pub mod Keeps
pub mod Privacy
pub mod Dragged
pub mod History
pub mod Select
pub mod Transfers
pub mod Closed
pub mod Conserve
pub mod Moved
pub mod Drops
pub mod Tests
use vant.Prelude.{
  ℕ, ◌+◌, ◌%◌, ◌^◌, Bool, true, false, not, ◌&&◌, ◌||◌, List, [], ◌∷◌, ◌++◌, Option, none, some,
  ◌==◌, if◌then◌else◌, Bytes, codes,
}
use vant.Decimal.{to_string}
use vant.Json.{json_string}
use vant.Events.{AgentEventLog, publish}
use vant.Navigation.{NavigationPolicy}
use vant.Find.{FindState, FindCall, fresh_find}

-- `private_session` tells whether the view was made with a private window's session.
pub record TabState : Type 0 where
  pub id : ℕ
  pub window : ℕ
  pub view : ℕ
  pub private_session : Bool
  pub internal_uri : Bytes
  pub display_uri : Bytes
  pub pending_web_uri : Bytes
  -- `webkit_web_view_get_uri`.
  pub view_uri : Option Bytes
  pub can_return_to_new_tab : Bool
  pub closing : Bool
  pub user_stopped : Bool
  pub recovering_blank_navigation : Bool

pub record WindowState : Type 0 where
  pub id : ℕ
  pub tabs : List TabState
  pub closed_tab_uris : List Bytes
  pub view : Option ℕ
  pub policy : NavigationPolicy
  pub private_mode : Bool
  pub app_mode : Bool
  pub closed : Bool
  pub middle_pressed_tab : Option ℕ
  pub prompt_next_download : Bool
  -- The address bar: whether its text was submitted, whether suggestions are shown, and which one is
  -- active, counted from 1, 0 for none.
  pub address_submission_dismissed : Bool
  pub suggestions_shown : Bool
  pub active_suggestion : ℕ
  pub find : FindState
  -- The placeholder of a drop: its width, whether it is shown and grows, and the tabs before it.
  pub tab_drop_width : ℕ
  pub tab_drop_shown : Bool
  pub tab_drop_animation : Bool
  pub tab_drop_index : ℕ

pub record ApplicationState : Type 0 where
  pub next_window_id : ℕ
  pub next_tab_id : ℕ
  pub app_mode : Bool
  pub windows : List WindowState
  pub dragging_tab : Option ℕ
  pub pending_tab_detach : Option ℕ
  pub tab_detach_source : Bool
  pub tab_drop_completed : Bool
  pub tab_drag_cancelled : Bool
  pub agent_events : AgentEventLog
  -- What was asked of WebKit's find controllers.
  pub find_calls : List FindCall

abbrev pub is_some_of : Option ℕ → ℕ → Bool
is_some_of none n = false
is_some_of (some m) n = m == n

-- `std::find_if` over a window's tabs: the tab with what stands before it and behind it.
pub record TabPosition : Type 0 where
  pub before : List TabState
  pub tab : TabState
  pub after : List TabState

abbrev behind : TabState → Option TabPosition → Option TabPosition
behind t none = none
behind t (some p) = some (record p { before = t ∷ p.before })

unfoldable pub find_position : (TabState → Bool) → List TabState → Option TabPosition
find_position test [] = none
find_position test (t ∷ ts) =
    let later = behind t (find_position test ts) in
    if test t then some (record { before = []; tab = t; after = ts }) else later

-- The tab that a pointer points to, in whichever window it is.
unfoldable pub find_tab : ℕ → List WindowState → Option TabState
unfolding find_position
find_tab id [] = none
find_tab id (w ∷ ws) = elim (find_position (λ t. t.id == id) w.tabs) [
  | none ↦ find_tab id ws
  | some p ↦ some p.tab
]

unfoldable pub find_window : ℕ → List WindowState → Option WindowState
find_window id [] = none
find_window id (w ∷ ws) = if w.id == id then some w else find_window id ws

-- A change of the window with the id.
unfoldable pub update_window : ℕ → (WindowState → WindowState) → List WindowState → List WindowState
update_window id f [] = []
update_window id f (w ∷ ws) = (if w.id == id then f w else w) ∷ update_window id f ws

abbrev pub set_window : WindowState → ApplicationState → ApplicationState
set_window w a = record a { windows = update_window w.id (λ old. w) a.windows }

unfoldable pub publish_event : Bytes → Bytes → ApplicationState → ApplicationState
publish_event kind payload a = record a { agent_events = (publish a.agent_events kind payload).0 }

-- The payload of an event on a tab of a window.
unfoldable pub tab_payload : ℕ → ℕ → Bytes → Bytes
tab_payload tab window uri =
    codes "{\"tab_id\":"
    ++ to_string tab
    ++ codes ",\"window_id\":"
    ++ to_string window
    ++ codes ",\"uri\":"
    ++ json_string uri
    ++ codes "}"

unfoldable pub window_payload : ℕ → Bool → Bytes
window_payload window private_mode =
    codes "{\"window_id\":"
    ++ to_string window
    ++ codes ",\"private\":"
    ++ (if private_mode then codes "true" else codes "false")
    ++ codes "}"

unfoldable pub clear_tab_drop_placeholder : WindowState → WindowState
clear_tab_drop_placeholder w = record w {
  tab_drop_animation = false;
  tab_drop_width = 0;
  tab_drop_shown = false;
}

-- The handler of `close-request`, which `gtk_window_close` runs.
unfoldable pub window_closing : WindowState → ApplicationState → ApplicationState
window_closing w a =
    publish_event (codes "window.closed") (window_payload w.id w.private_mode)
      (set_window (record (clear_tab_drop_placeholder w) { closed = true }) a)
