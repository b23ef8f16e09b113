-- ===== src/Windows/Opening.antt =====
-- src/native_app.cpp: opening windows and tabs, and bringing closed tabs back.
use vant.Prelude.{
  ℕ, ◌+◌, Bool, true, false, not, ◌&&◌, List, [], ◌∷◌, ◌++◌, Option, none, some, ◌==◌,
  if◌then◌else◌, Bytes, codes, bytes_eq, length, drop, take,
}
use vant.Navigation.{NavigationKind, NavigationDecision, resolve}
use vant.Find.{fresh_find}
use vant.Windows.{
  TabState, WindowState, ApplicationState, is_some_of, TabPosition, find_position, find_window,
  set_window, publish_event, tab_payload, window_payload,
}
use vant.Windows.Tabs.{select_tab, text_or_empty}

abbrev goes_home : NavigationDecision → Bool
goes_home d = elim d.kind [
  | NavigationKind.internal ↦ bytes_eq d.uri (codes "vantage:new")
  | NavigationKind.web ↦ false
  | NavigationKind.external ↦ false
  | NavigationKind.rejected ↦ false
]

-- The addresses of the tab, by the decision's kind.
abbrev pub addressed : NavigationKind → Bytes → TabState → TabState
addressed NavigationKind.web uri t = record t {
  internal_uri = [];
  display_uri = [];
  pending_web_uri = uri;
  recovering_blank_navigation = false;
}
addressed NavigationKind.internal uri t = record t {
  internal_uri = uri;
  display_uri = [];
  pending_web_uri = [];
  recovering_blank_navigation = false;
}
addressed NavigationKind.external uri t = t
addressed NavigationKind.rejected uri t = t

-- What `load_decision` keeps in the tab.
unfoldable pub load_decision : NavigationDecision → TabState → TabState
load_decision d t = addressed d.kind d.uri (record t {
  can_return_to_new_tab =
      if goes_home d
      then false
      else if bytes_eq t.internal_uri (codes "vantage:new")
      then true
      else t.can_return_to_new_tab;
})

abbrev pub load_resolved : Option NavigationDecision → TabState → TabState
load_resolved none t = t
load_resolved (some d) t = load_decision d t

abbrev pub fresh_tab : WindowState → ℕ → ℕ → TabState
fresh_tab w id view = record {
  id = id;
  window = w.id;
  view = view;
  private_session = w.private_mode;
  internal_uri = [];
  display_uri = [];
  pending_web_uri = [];
  view_uri = none;
  can_return_to_new_tab = false;
  closing = false;
  user_stopped = false;
  recovering_blank_navigation = false;
}

-- Next to the active tab, or at the end without one.
abbrev pub insert_index : Option TabPosition → List TabState → ℕ
insert_index none tabs = length tabs
insert_index (some p) tabs = length p.before + 1

abbrev pub insert_tab : ℕ → TabState → List TabState → List TabState
insert_tab n t tabs = take n tabs ++ t ∷ drop n tabs

-- What WebKit gives a new tab: its view, and the address that the view has after the first load.
pub record NewView : Type 0 where
  pub number : ℕ
  pub loaded : Option Bytes

abbrev pub tab_of : NewView → Bytes → WindowState → ApplicationState → TabState
tab_of v uri w a =
    record (load_resolved (resolve w.policy uri) (fresh_tab w a.next_tab_id v.number)) {
      view_uri = v.loaded;
    }

-- `new_tab` in a window that takes the tab itself.
unfoldable pub open_tab : NewView → Bytes → WindowState → ApplicationState → ApplicationState
unfolding load_decision
open_tab v uri w a =
    let t = tab_of v uri w a in
    let active = find_position (λ s. is_some_of w.view s.view) w.tabs in
    publish_event (codes "tab.created") (tab_payload t.id w.id (text_or_empty v.loaded)) (
      select_tab t (record w { tabs = insert_tab (insert_index active w.tabs) t w.tabs })
        (record a { next_tab_id = a.next_tab_id + 1 }))

unfoldable pub fresh_window : ApplicationState → Bool → WindowState
fresh_window a private_mode = record {
  id = a.next_window_id;
  tabs = [];
  closed_tab_uris = [];
  view = none;
  policy = record { search_template = codes "https://search.brave.com/search?q={query}" };
  private_mode = private_mode;
  app_mode = a.app_mode;
  closed = false;
  middle_pressed_tab = none;
  prompt_next_download = false;
  address_submission_dismissed = false;
  suggestions_shown = false;
  active_suggestion = 0;
  find = fresh_find;
  tab_drop_width = 0;
  tab_drop_shown = false;
  tab_drop_animation = false;
  tab_drop_index = 0;
}

abbrev pub first_tab : Option NewView → Bytes → WindowState → ApplicationState → ApplicationState
first_tab none uri w a = a
first_tab (some v) uri w a = open_tab v uri w a

-- `create_window`; without a view it makes no initial tab.
unfoldable pub create_window : Option NewView → Bytes → Bool → ApplicationState → ApplicationState
create_window v uri private_mode a =
    let w = fresh_window a private_mode in
    publish_event (codes "window.created") (window_payload w.id w.private_mode) (
      first_tab v uri w
        (record a { next_window_id = a.next_window_id + 1; windows = a.windows ++ w ∷ [] }))

unfoldable pub new_tab : NewView → Bytes → WindowState → ApplicationState → ApplicationState
new_tab v uri w a =
    if w.app_mode && not (length w.tabs == 0)
    then create_window (some v) uri w.private_mode a
    else open_tab v uri w a

-- The last of the closed addresses with what stands before it.
unfoldable pub pop_uri : List Bytes → Option (List Bytes × Bytes)
pop_uri [] = none
pop_uri (u ∷ []) = some ([], u)
pop_uri (u ∷ x ∷ us) = elim (pop_uri (x ∷ us)) [
  | none ↦ none
  | some (kept, last) ↦ some (u ∷ kept, last)
]

abbrev pub reopen_popped :
    NewView → Option (List Bytes × Bytes) → WindowState → ApplicationState → ApplicationState
reopen_popped v none w a = a
reopen_popped v (some (kept, uri)) w a =
    let rest : WindowState = record w { closed_tab_uris = kept } in
    new_tab v uri rest (set_window rest a)

unfoldable pub reopen_closed_tab : NewView → ℕ → ApplicationState → ApplicationState
reopen_closed_tab v window a = elim (find_window window a.windows) [
  | none ↦ a
  | some w ↦ reopen_popped v (pop_uri w.closed_tab_uris) w a
]
