-- ===== src/Windows/Tabs.antt =====
-- src/native_app.cpp: selecting and closing tabs. What a `std::string` holds after it was moved from,
-- which the language leaves open, is the parameter `moved_from`.
use vant.Prelude.{
  ℕ, ◌-◌, min, Bool, true, false, not, ◌||◌, List, [], ◌∷◌, ◌++◌, Option, none, some, ltb, ◌==◌,
  if◌then◌else◌, Bytes, codes, bytes_eq, length, drop, get_elem?,
}
use vant.Strings.{is_empty, starts_with}
use vant.Find.{FindState, FindCall, find_changed}
use vant.Windows.{
  TabState, WindowState, ApplicationState, is_some_of, TabPosition, find_position, find_tab,
  find_window, set_window, publish_event, tab_payload, window_closing,
}

abbrev append_find : ApplicationState → FindState × List FindCall → ApplicationState
append_find a r = record a { find_calls = a.find_calls ++ r.1 }

-- `find_changed` for the bar that is open.
unfoldable pub refind : WindowState → FindState × List FindCall
refind w = if w.find.find_bar then find_changed w.view w.find.entry w.find else (w.find, [])

-- The tab becomes the window's active one.
unfoldable pub select_tab : TabState → WindowState → ApplicationState → ApplicationState
select_tab t w a =
    let shown : WindowState = record w { view = some t.view } in
    let found = refind shown in append_find (set_window (record shown { find = found.0 }) a) found

abbrev pub select_at : Option TabState → WindowState → ApplicationState → ApplicationState
select_at none w a = set_window w a
select_at (some t) w a = select_tab t w a

abbrev pub or_default : Bytes → Bytes
or_default uri =
    if is_empty uri || bytes_eq uri (codes "about:blank") then codes "vantage:new" else uri

abbrev pub text_or_empty : Option Bytes → Bytes
text_or_empty none = []
text_or_empty (some uri) = uri

-- `restore_uri`.
unfoldable pub restore_address : TabState → Bytes
restore_address t = or_default (
    if starts_with (codes "source:") t.display_uri
    then drop 7 t.display_uri
    else if not (is_empty t.display_uri)
    then t.display_uri
    else if not (is_empty t.internal_uri)
    then t.internal_uri
    else if not (is_empty t.pending_web_uri)
    then t.pending_web_uri
    else text_or_empty t.view_uri)

abbrev pub closed_tab_limit : ℕ
closed_tab_limit = 25

-- `push_back`, and `erase(begin())` past the limit.
unfoldable pub remember_uri : Bytes → List Bytes → List Bytes
remember_uri uri kept =
    let pushed = kept ++ uri ∷ [] in
    if ltb closed_tab_limit (length pushed) then drop 1 pushed else pushed

-- The window without the tab.
unfoldable pub without_tab : TabPosition → WindowState → WindowState
without_tab p w = record w {
  middle_pressed_tab =
      if is_some_of w.middle_pressed_tab p.tab.id then none else w.middle_pressed_tab;
  closed_tab_uris = remember_uri (restore_address p.tab) w.closed_tab_uris;
  tabs = p.before ++ p.after;
}

-- What becomes of a window that lost its tab at `index`: it closes where it is empty, and shows a
-- neighbour where the tab was the active one.
unfoldable pub after_removal : ℕ → Bool → WindowState → ApplicationState → ApplicationState
after_removal index was_active w a =
    if length w.tabs == 0
    then window_closing w a
    else if was_active
    then select_at (get_elem? w.tabs (min index (length w.tabs - 1))) w a
    else set_window w a

unfoldable pub close_position :
    (Bytes → Bytes) → TabPosition → WindowState → ApplicationState → ApplicationState
close_position moved_from p w a =
    after_removal (length p.before) (is_some_of w.view p.tab.view) (without_tab p w) (
      publish_event (codes "tab.closed")
        (tab_payload p.tab.id w.id (moved_from (restore_address p.tab))) a)

-- The tab that a pointer points to, with its window, as long as it is in one.
abbrev at_position :
    {S : Type 0} → Option TabPosition → WindowState → S → (TabPosition → WindowState → S) → S
at_position none w missing k = missing
at_position (some p) w missing k = k p w

abbrev in_window : {S : Type 0} → ℕ → Option WindowState → S → (TabPosition → WindowState → S) → S
in_window id none missing k = missing
in_window id (some w) missing k = at_position (find_position (λ t. t.id == id) w.tabs) w missing k

abbrev pub pointed :
    {S : Type 0} → Option TabState → ApplicationState → S → (TabPosition → WindowState → S) → S
pointed none a missing k = missing
pointed (some t) a missing k = in_window t.id (find_window t.window a.windows) missing k

-- A pointer to a tab that is gone, whose memory the program reads, is outside the model: here it
-- changes nothing.
unfoldable pub close_tab : (Bytes → Bytes) → ℕ → ApplicationState → ApplicationState
close_tab moved_from id a =
    pointed (find_tab id a.windows) a a (λ p w. close_position moved_from p w a)

-- `closing` marks a tab whose close waits for the main loop.
abbrev pub mark_closing : TabPosition → WindowState → WindowState
mark_closing p w = record w { tabs = p.before ++ record p.tab { closing = true } ∷ p.after }

-- Whether `close_tab_deferred` is queued.
unfoldable pub queue_tab_close : ℕ → ApplicationState → ApplicationState × Bool
queue_tab_close id a =
    pointed (find_tab id a.windows) a (a, false)
      (λ p w. if p.tab.closing then (a, false) else (set_window (mark_closing p w) a, true))
