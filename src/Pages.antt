-- ===== src/Pages.antt =====
-- src/native_app.cpp: how a page is loaded, what the signals of its view change, and the handlers of
-- the address bar and its buttons. What WebKit and GLib answer are arguments. The scripts that are
-- run in a loaded page, for its dark mode and its icon, are left out.
pub mod Laws
pub mod Recovery
pub mod Tests
use vant.Prelude.{
  ℕ, ◌+◌, Bool, true, false, not, ◌&&◌, ◌||◌, List, [], ◌∷◌, ◌++◌, Option, none, some, ◌==◌,
  if◌then◌else◌, Bytes, codes, bytes_eq, drop,
}
use vant.Decimal.{to_string}
use vant.Events.{AgentEventLog, publish}
use vant.Json.{json_string}
use vant.Navigation.{NavigationKind, NavigationDecision, NavigationPolicy, resolve}
use vant.Session.{c_str}
use vant.Strings.{is_empty, starts_with}
use vant.UserData.{UserDataStore, add_history, is_http}
use vant.Windows.{TabState, WindowState, TabPosition, find_position, is_some_of}
use vant.Windows.Opening.{load_decision, load_resolved}

pub data LoadEvent : Type 0 where
  started redirected committed finished : LoadEvent

unfoldable pub event_number : LoadEvent → ℕ
event_number LoadEvent.started = 0
event_number LoadEvent.redirected = 1
event_number LoadEvent.committed = 2
event_number LoadEvent.finished = 3

-- A tab with what its signals reach; `loads` are the addresses that its view was told to load again.
pub record Page : Type 0 where
  pub tab : TabState
  pub private_mode : Bool
  pub agent_events : AgentEventLog
  pub store : UserDataStore
  pub loads : List Bytes

unfoldable pub load_payload : ℕ → LoadEvent → Bytes
load_payload tab event =
    codes "{\"tab_id\":"
    ++ to_string tab
    ++ codes ",\"event\":"
    ++ to_string (event_number event)
    ++ codes "}"

abbrev pub is_web : Option Bytes → Bool
is_web none = false
is_web (some uri) = is_http uri

abbrev pub is_blank_page : Option Bytes → Bool
is_blank_page none = false
is_blank_page (some uri) = bytes_eq uri (codes "about:blank")

abbrev or_else : Bytes → Option Bytes → Bytes
or_else other none = other
or_else other (some text) = text

abbrev text_of : Option Bytes → Bytes
text_of = or_else []

-- A committed blank page where an address is waited for: the address is loaded again, once.
unfoldable pub recovered : Option Bytes → Page → Page
recovered uri p =
    if is_blank_page uri
      && not (is_empty p.tab.pending_web_uri)
      && not p.tab.recovering_blank_navigation
    then record p {
      tab = record p.tab { recovering_blank_navigation = true };
      loads = p.loads ++ p.tab.pending_web_uri ∷ [];
    }
    else p

unfoldable pub visited : Option Bytes → Option Bytes → ℕ → ℕ → Page → Page
visited uri title now rowid p =
    if not p.private_mode && is_empty p.tab.internal_uri && is_web uri
    then record p {
      store = (add_history true rowid (text_of uri) (or_else (text_of uri) title) now p.store).0;
    }
    else p

unfoldable pub settled : Option Bytes → Page → Page
settled uri p =
    if is_web uri
    then record p {
      tab = record p.tab { pending_web_uri = []; recovering_blank_navigation = false };
    }
    else p

abbrev continued : LoadEvent → Option Bytes → Option Bytes → ℕ → ℕ → Page → Page
continued LoadEvent.started uri title now rowid p = record p {
  tab = record p.tab { user_stopped = false };
}
continued LoadEvent.redirected uri title now rowid p = p
continued LoadEvent.committed uri title now rowid p = recovered uri p
continued LoadEvent.finished uri title now rowid p = settled uri (visited uri title now rowid p)

abbrev pub announced : LoadEvent → Page → Page
announced event p = record p {
  agent_events = (publish p.agent_events (codes "page.load") (load_payload p.tab.id event)).0;
}

-- `uri` and `title` are the view's.
unfoldable pub load_changed : LoadEvent → Option Bytes → Option Bytes → ℕ → ℕ → Page → Page
unfolding recovered settled visited
load_changed event uri title now rowid p = continued event uri title now rowid (announced event p)

-- The failure of a load that was cancelled, but not by the user, is not told; otherwise `message` is
-- the error's and the failing address stands in front of it.
unfoldable pub load_failed : Bool → Option Bytes → Option Bytes → Page → Page × Option Bytes
load_failed cancelled uri message p =
    if cancelled && not p.tab.user_stopped
    then (p, none)
    else (let told = text_of uri ++ codes ": " ++ or_else (codes "unknown load error") message in
        (
          record p {
            agent_events =
                (publish p.agent_events (codes "page.load_failed") (
                  codes "{\"tab_id\":"
                  ++ to_string p.tab.id
                  ++ codes ",\"message\":"
                  ++ json_string told
                  ++ codes "}")).0;
          },
          some told,
        ))

abbrev is_none : Option Bytes → Bool
is_none none = true
is_none (some uri) = false

abbrev shown : Bool → Option Bytes → TabState → TabState × Option Bytes
shown focused none t = (t, none)
shown focused (some uri) t = (record t { internal_uri = [] }, if focused then none else some uri)

abbrev kept_at : Bytes → TabState → TabState
kept_at uri t = if bytes_eq t.internal_uri (codes "vantage:source") then t else record t {
  internal_uri = [];
  display_uri = [];
  pending_web_uri = uri;
  recovering_blank_navigation = false;
}

-- By the decision's kind; the answer is whether WebKit goes on with the load.
abbrev pub policy_decided : NavigationKind → NavigationDecision → Page → Page × Bool
policy_decided NavigationKind.web d p = (record p { tab = kept_at d.uri p.tab }, true)
policy_decided NavigationKind.internal d p = (record p { tab = load_decision d p.tab }, false)
policy_decided NavigationKind.external d p = (p, false)
policy_decided NavigationKind.rejected d p = (p, false)

abbrev pub decided_or_not : Option NavigationDecision → Page → Page × Bool
decided_or_not none p = (p, false)
decided_or_not (some d) p = policy_decided d.kind d p

-- The end of `decide_policy`: the address that the view is about to load, which is none of the
-- actions of an internal page.
unfoldable pub decide_address : NavigationPolicy → Bytes → Page → Page × Bool
unfolding load_decision
decide_address policy uri p = decided_or_not (resolve policy uri) p

-- What the address bar shows instead, where the tab is the active one; it is left alone while it has
-- the focus.
unfoldable pub uri_changed : Bool → Bool → Option Bytes → TabState → TabState × Option Bytes
uri_changed active focused uri t =
    if not active
    then (t, none)
    else if bytes_eq t.internal_uri (codes "vantage:source")
    then (t, if focused then none else some t.display_uri)
    else if not (is_empty t.internal_uri) && (is_none uri || is_blank_page uri)
    then (t, none)
    else shown focused uri t

abbrev pub expanded : Option Bytes → Bytes → Bytes
expanded none input = input
expanded (some home) input = if starts_with (codes "~/") input then home ++ drop 1 input else input

-- A file that is there, as an address; `to_uri` is `g_filename_to_uri`.
unfoldable pub local_path_uri :
    Option Bytes → (Bytes → Bool) → (Bytes → Option Bytes) → Bytes → Bytes
local_path_uri home exists to_uri input =
    let path = expanded home input in
    if not (starts_with (codes "/") path) || not (exists (c_str path))
    then []
    else text_of (to_uri (c_str path))

unfoldable pub navigable_address :
    Option Bytes → (Bytes → Bool) → (Bytes → Option Bytes) → Bytes → Bytes
unfolding local_path_uri
navigable_address home exists to_uri input =
    let uri = local_path_uri home exists to_uri input in if is_empty uri then input else uri

-- A tab in the place of one that was found.
abbrev pub placed_tab : TabPosition → TabState → WindowState → WindowState
placed_tab p t w = record w { tabs = p.before ++ t ∷ p.after }

abbrev replaced : Option TabPosition → (TabState → TabState) → WindowState → WindowState
replaced none f w = w
replaced (some p) f w = placed_tab p (f p.tab) w

-- The active tab replaced.
abbrev pub with_active : (TabState → TabState) → WindowState → WindowState
with_active f w = replaced (find_position (λ t. is_some_of w.view t.view) w.tabs) f w

unfoldable pub hide_address_suggestions : WindowState → WindowState
hide_address_suggestions w = record w { suggestions_shown = false; active_suggestion = 0 }

unfoldable pub submit_address : (Bytes → Bytes) → Bytes → WindowState → WindowState
unfolding load_decision hide_address_suggestions
submit_address navigable text w =
    with_active (load_resolved (resolve w.policy (navigable text)))
      (hide_address_suggestions (record w { address_submission_dismissed = true }))

-- What the view is told.
pub data ViewCall : Type 0 where
  nothing back forward stop reload load : ViewCall

unfoldable pub go_back : Bool → WindowState → WindowState × ViewCall
unfolding load_decision
go_back can_go_back w = elim w.view [
  | none ↦ (w, ViewCall.nothing)
  | some view ↦
      if can_go_back
      then (w, ViewCall.back)
      else elim (find_position (λ t. t.view == view) w.tabs) [
        | none ↦ (w, ViewCall.nothing)
        | some p ↦
            if p.tab.can_return_to_new_tab
            then (
              placed_tab p (load_resolved (resolve w.policy (codes "vantage:new")) p.tab) w,
              ViewCall.load,
            )
            else (w, ViewCall.nothing)
      ]
]

unfoldable pub go_forward : Bool → WindowState → ViewCall
go_forward can_go_forward w = elim w.view [
  | none ↦ ViewCall.nothing
  | some view ↦ if can_go_forward then ViewCall.forward else ViewCall.nothing
]

unfoldable pub reload_or_stop : Bool → WindowState → WindowState × ViewCall
unfolding load_decision
reload_or_stop loading w = elim w.view [
  | none ↦ (w, ViewCall.nothing)
  | some view ↦ elim (find_position (λ t. t.view == view) w.tabs) [
    | none ↦ (w, if loading then ViewCall.stop else ViewCall.reload)
    | some p ↦
        if loading
        then (placed_tab p (record p.tab { user_stopped = true }) w, ViewCall.stop)
        else if not (is_empty p.tab.internal_uri)
        then (
          placed_tab p (load_resolved (resolve w.policy p.tab.internal_uri) p.tab) w,
          ViewCall.load,
        )
        else (w, ViewCall.reload)
  ]
]
