-- ===== src/Agent/Browser.antt =====
-- src/native_app.cpp, `dispatch_agent_request`: the methods on windows and tabs.
use vant.Prelude.{
  Bool, false, not, List, [], ◌∷◌, ◌++◌, Option, none, some, if◌then◌else◌, Bytes, codes, length,
}
use vant.Strings.{is_empty}
use vant.Decimal.{to_string}
use vant.Navigation.{NavigationKind, web, internal, external, rejected, NavigationDecision, resolve}
use vant.Rpc.{AgentRequest, agent_ok, agent_error, json_param_string, json_param_bool}
use vant.Windows.{TabState, WindowState, ApplicationState, set_window}
use vant.Windows.Tabs.{select_tab, close_tab}
use vant.Windows.Opening.{load_decision, create_window, new_tab}
use vant.Downloads.{Owner}
use vant.Pages.{placed_tab}
use vant.Agent.{
  Host, Dispatched, replied, thrown, Handler, number_param, true_or_false, listed, agent_window,
  agent_tab, place_of, TabPlace, agent_tab_json, not_found, on_tab,
}
use vant.Agent.Data.{done}

abbrev pub or_new : Bytes → Bytes
or_new uri = if is_empty uri then codes "vantage:new" else uri

abbrev pub on_app : Owner → ApplicationState → Owner
on_app o a = record o { app = a }

abbrev pub is_private : Option TabPlace → Bool
is_private none = false
is_private (some p) = p.window.private_mode

unfoldable pub browser_profile : Handler
browser_profile h r o =
    let private_mode = is_private (agent_tab (number_param r (codes "tab_id")) o.app.windows) in
    replied
      (agent_ok r.id (
        codes "{\"private\":"
        ++ (true_or_false private_mode
            ++ (codes ",\"persistent\":" ++ (true_or_false (not private_mode) ++ codes "}")))))
      o

abbrev pub window_json : WindowState → Bytes
window_json w =
    codes "{\"id\":"
    ++ (to_string w.id
        ++ (codes ",\"private\":"
            ++ (true_or_false w.private_mode
                ++ (codes ",\"tabs\":" ++ (to_string (length w.tabs) ++ codes "}")))))

unfoldable pub open_windows : List WindowState → List WindowState
open_windows [] = []
open_windows (w ∷ ws) = let rest = open_windows ws in if w.closed then rest else w ∷ rest

unfoldable pub browser_windows : Handler
unfolding open_windows
browser_windows h r o = replied (agent_ok r.id (listed window_json (open_windows o.app.windows))) o

unfoldable pub tabs_of : WindowState → List TabState → List (TabState × WindowState)
tabs_of w [] = []
tabs_of w (t ∷ ts) = (t, w) ∷ tabs_of w ts

unfoldable pub all_tabs : List WindowState → List (TabState × WindowState)
unfolding tabs_of
all_tabs [] = []
all_tabs (w ∷ ws) = tabs_of w w.tabs ++ all_tabs ws

unfoldable pub browser_tabs : Handler
unfolding all_tabs
browser_tabs h r o =
    replied (agent_ok r.id (listed (λ p. agent_tab_json h p.0 p.1) (all_tabs o.app.windows))) o

-- The window that is made is the last, and has the number that was next.
unfoldable pub browser_window_new : Handler
browser_window_new h r o =
    let private_mode = json_param_bool r.params_json (codes "private") false in
    let uri = or_new (json_param_string r.params_json (codes "uri")) in
    replied
      (agent_ok r.id (codes "{\"window_id\":" ++ (to_string o.app.next_window_id ++ codes "}")))
      (on_app o (create_window (some h.view) uri private_mode o.app))

abbrev pub tab_reply : Host → AgentRequest → Owner → Option TabPlace → Dispatched
tab_reply h r o none = thrown
tab_reply h r o (some p) = replied (agent_ok r.id (agent_tab_json h p.position.tab p.window)) o

abbrev pub tab_opened : Host → AgentRequest → Owner → Option WindowState → Dispatched
tab_opened h r o none = not_found (codes "window not found") r o
tab_opened h r o (some w) =
    let uri = or_new (json_param_string r.params_json (codes "uri")) in
    let opened = on_app o (new_tab h.view uri w o.app) in
    tab_reply h r opened (place_of o.app.next_tab_id opened.app.windows)

unfoldable pub browser_tab_new : Handler
browser_tab_new h r o =
    tab_opened h r o (agent_window (number_param r (codes "window_id")) o.app.windows)

unfoldable pub browser_tab_select : Handler
browser_tab_select h r o = on_tab r o (λ p.
    replied (agent_ok r.id (agent_tab_json h p.position.tab p.window))
      (on_app o (select_tab p.position.tab p.window o.app)))

unfoldable pub browser_tab_close : Handler
browser_tab_close h r o =
    on_tab r o (λ p. done r (on_app o (close_tab h.moved_from p.position.tab.id o.app)))

-- The tab after WebKit was told something, at the address that the view then has.
abbrev pub after_call : Host → AgentRequest → Owner → TabPlace → TabState → Dispatched
after_call h r o p t =
    let shown : TabState = record t { view_uri = h.loaded } in
    replied (agent_ok r.id (agent_tab_json h shown p.window))
      (on_app o (set_window (placed_tab p.position shown p.window) o.app))

abbrev pub reason_or : Bytes → Bytes → Bytes
reason_or other reason = if is_empty reason then other else reason

abbrev pub refused : Bytes → Bytes → AgentRequest → Owner → Dispatched
refused code message r o = replied (agent_error r.id code message) o

abbrev pub go_to :
    Host → AgentRequest → Owner → TabPlace → NavigationKind → NavigationDecision → Dispatched
go_to h r o p web d = after_call h r o p (load_decision d p.position.tab)
go_to h r o p internal d = after_call h r o p (load_decision d p.position.tab)
go_to h r o p external d =
    refused (codes "navigation_external")
      (reason_or (codes "requires external protocol handoff") d.reason) r o
go_to h r o p rejected d =
    refused (codes "navigation_rejected") (reason_or (codes "scheme is not allowed") d.reason) r o

-- An exception of `resolve` is one of the callback.
abbrev pub decided : Host → AgentRequest → Owner → TabPlace → Option NavigationDecision → Dispatched
decided h r o p none = thrown
decided h r o p (some d) = go_to h r o p d.kind d

unfoldable pub browser_navigate : Handler
browser_navigate h r o = on_tab r o (λ p.
    let uri = json_param_string r.params_json (codes "uri") in
    if is_empty uri
    then refused (codes "invalid_params") (codes "uri required") r o
    else decided h r o p (resolve p.window.policy uri))

-- `browser.reload`, `browser.stop`, `browser.back` and `browser.forward` only tell WebKit something.
unfoldable pub browser_call : Handler
browser_call h r o = on_tab r o (λ p. after_call h r o p p.position.tab)
