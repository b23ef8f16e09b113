-- ===== src/Agent/Dispatch.antt =====
-- src/native_app.cpp, `dispatch_agent_request`: which method a request calls.
use vant.Prelude.{Bool, false, ◌||◌, List, [], ◌∷◌, ◌++◌, if◌then◌else◌, Bytes, codes, bytes_eq}
use vant.Strings.{is_empty}
use vant.Json.{json_string}
use vant.Rpc.{AgentRequest, agent_ok, json_param_string}
use vant.Downloads.{Owner}
use vant.Agent.{Host, Dispatched, replied, elsewhere, thrown, Handler, on_tab}
use vant.Agent.Catalog.{agent_describe_json}
use vant.Agent.Data.{
  downloads_list, downloads_cancel, downloads_remove, bookmarks_list, bookmarks_add,
  bookmarks_remove, history_list, history_clear, permissions_list, permissions_set, events_since,
  events_clear,
}
use vant.Agent.Browser.{
  refused, browser_profile, browser_windows, browser_tabs, browser_window_new, browser_tab_new,
  browser_tab_select, browser_tab_close, browser_navigate, browser_call,
}

unfoldable pub agent_status : Handler
agent_status h r o =
    replied
      (agent_ok r.id (codes "{\"running\":true,\"socket\":" ++ (json_string h.socket ++ codes "}")))
      o

unfoldable pub agent_version : Handler
agent_version h r o =
    replied
      (agent_ok r.id (
        codes "{\"protocol\":1,\"vantage\":"
        ++ (json_string (codes "0.1.11")
            ++ (codes ",\"native\":" ++ (json_string h.native ++ codes "}")))))
      o

unfoldable pub agent_capabilities : Handler
agent_capabilities h r o =
    replied
      (agent_ok r.id (
        codes
          "{\"protocol\":1,\"stability\":\"stable\",\"namespaces\":[\"browser\",\"page\",\"net\",\"webkit\",\"downloads\",\"bookmarks\",\"history\",\"permissions\",\"events\"],\"features\":[\"api-fetch\",\"live-session\",\"stable-ids\",\"javascript\",\"semantic-snapshot\",\"semantic-interaction\",\"content-inspection\",\"webkit-introspection\",\"browser-data\",\"diagnostics\",\"event-sequence\",\"multi-controller\"]}"))
      o

-- The methods that ask the page, the view or the settings of a tab.
abbrev pub asks_page : Handler
asks_page h r o = on_tab r o (λ p. elsewhere)

-- A parameter that must be there.
abbrev pub required : Bytes → Bytes → AgentRequest → Owner → Dispatched → Dispatched
required key message r o k =
    if is_empty (json_param_string r.params_json key)
    then refused (codes "invalid_params") message r o
    else k

abbrev pub asks_with : Bytes → Bytes → Handler
asks_with key message h r o = on_tab r o (λ p. required key message r o elsewhere)

abbrev pub is_one_of : Bytes → List Bytes → Bool
is_one_of name [] = false
is_one_of name (x ∷ xs) = bytes_eq name x || is_one_of name xs

-- A parameter that must be one of some words.
abbrev pub asks_one_of : Bytes → List Bytes → Bytes → Handler
asks_one_of key words message h r o = on_tab r o (λ p.
    if is_one_of (json_param_string r.params_json key) words
    then elsewhere
    else refused (codes "invalid_params") message r o)

abbrev pub kinds : List Bytes
kinds = codes "text" ∷ codes "html" ∷ codes "selection" ∷ codes "metadata" ∷ []

abbrev pub actions : List Bytes
actions =
    codes "click"
    ∷ codes "focus"
    ∷ codes "fill"
    ∷ codes "type"
    ∷ codes "clear"
    ∷ codes "select"
    ∷ codes "check"
    ∷ codes "uncheck"
    ∷ codes "scroll"
    ∷ codes "key"
    ∷ []

unfoldable pub describe : Handler
describe h r o =
    replied (agent_ok r.id (agent_describe_json (json_param_string r.params_json (codes "name")))) o

unfoldable pub net_fetch : Handler
net_fetch h r o = required (codes "url") (codes "url required") r o elsewhere

abbrev pub unknown_method : Handler
unknown_method h r o = refused (codes "method_not_found") (codes "unknown agent method") r o

-- The chain of tests: the first method of the name is called.
abbrev pub called : List (Bytes × Handler) → Handler
called [] h r o = unknown_method h r o
called ((name, handler) ∷ rest) h r o =
    if bytes_eq r.method name then handler h r o else called rest h r o

unfoldable pub methods : List (Bytes × Handler)
methods =
    (codes "status", agent_status)
    ∷ (codes "version", agent_version)
    ∷ (codes "capabilities", agent_capabilities)
    ∷ (codes "downloads.list", downloads_list)
    ∷ (codes "downloads.cancel", downloads_cancel)
    ∷ (codes "downloads.remove", downloads_remove)
    ∷ (codes "bookmarks.list", bookmarks_list)
    ∷ (codes "bookmarks.add", bookmarks_add)
    ∷ (codes "bookmarks.remove", bookmarks_remove)
    ∷ (codes "history.list", history_list)
    ∷ (codes "history.clear", history_clear)
    ∷ (codes "permissions.list", permissions_list)
    ∷ (codes "permissions.set", permissions_set)
    ∷ (codes "browser.cookies", asks_page)
    ∷ (codes "browser.profile", browser_profile)
    ∷ (codes "describe", describe)
    ∷ (codes "webkit.webview", asks_page)
    ∷ (codes "webkit.settings", asks_page)
    ∷ (codes "webkit.network", asks_page)
    ∷ (codes "webkit.setting.set", asks_page)
    ∷ (codes "net.fetch", net_fetch)
    ∷ (codes "page.screenshot", asks_with (codes "path") (codes "path required"))
    ∷ (
      codes "page.inspect",
      asks_one_of (codes "kind") kinds (codes "kind must be text, html, selection, or metadata"),
    )
    ∷ (
      codes "page.interact",
      asks_one_of (codes "action") actions (codes "unknown interaction action"),
    )
    ∷ (codes "page.wait", asks_page)
    ∷ (codes "page.snapshot", asks_page)
    ∷ (codes "events.since", events_since)
    ∷ (codes "events.clear", events_clear)
    ∷ (codes "page.diagnostics", asks_page)
    ∷ (codes "page.diagnostics.clear", asks_page)
    ∷ (codes "page.native_diagnostics", asks_page)
    ∷ (codes "page.javascript", asks_with (codes "script") (codes "script required"))
    ∷ (codes "browser.windows", browser_windows)
    ∷ (codes "browser.tabs", browser_tabs)
    ∷ (codes "browser.window.new", browser_window_new)
    ∷ (codes "browser.tab.new", browser_tab_new)
    ∷ (codes "browser.tab.select", browser_tab_select)
    ∷ (codes "browser.tab.close", browser_tab_close)
    ∷ (codes "browser.navigate", browser_navigate)
    ∷ (codes "browser.reload", browser_call)
    ∷ (codes "browser.stop", browser_call)
    ∷ (codes "browser.back", browser_call)
    ∷ (codes "browser.forward", browser_call)
    ∷ []

unfoldable pub dispatch : Handler
dispatch = called methods

-- The browser behind a request; an exception ends it.
abbrev pub owner_after : Owner → Dispatched → Owner
owner_after o (replied text p) = p
owner_after o elsewhere = o
owner_after o thrown = o

-- Requests one after the other, each with what is outside then.
unfoldable pub dispatch_all : List (Host × AgentRequest) → Owner → Owner
unfolding dispatch
dispatch_all [] o = o
dispatch_all ((h, r) ∷ rest) o = dispatch_all rest (owner_after o (dispatch h r o))
