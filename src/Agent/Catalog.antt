-- ===== src/Agent/Catalog.antt =====
-- src/native_app.cpp, `agent_describe_json`: what the methods take and return.
use vant.Prelude.{Bool, true, not, ◌&&◌, List, [], ◌∷◌, ◌++◌, if◌then◌else◌, Bytes, codes, bytes_eq}
use vant.Strings.{is_empty}
use vant.Json.{json_string}

unfoldable pub catalog : List (Bytes × Bytes)
catalog =
    (codes "status", codes "{\"params\":{},\"returns\":\"running state and agent socket path\"}")
    ∷ (
      codes "version",
      codes "{\"params\":{},\"returns\":\"protocol, Vantage and native runtime versions\"}",
    )
    ∷ (
      codes "capabilities",
      codes "{\"params\":{},\"returns\":\"protocol stability, namespaces and feature list\"}",
    )
    ∷ (
      codes "describe",
      codes
          "{\"params\":{\"name\":\"string?\"},\"returns\":\"method schema catalog, or one method when name is given\"}",
    )
    ∷ (
      codes "browser.windows",
      codes "{\"params\":{},\"returns\":\"list of windows with id, private flag and tab count\"}",
    )
    ∷ (
      codes "browser.tabs",
      codes
          "{\"params\":{},\"returns\":\"list of tabs with id, window_id, uri, title, loading and private flag\"}",
    )
    ∷ (
      codes "browser.window.new",
      codes
          "{\"params\":{\"private\":\"boolean?\",\"uri\":\"string?\"},\"returns\":\"new window id\"}",
    )
    ∷ (
      codes "browser.tab.new",
      codes
          "{\"params\":{\"window_id\":\"integer?\",\"uri\":\"string?\"},\"returns\":\"new tab object\"}",
    )
    ∷ (
      codes "browser.tab.select",
      codes "{\"params\":{\"tab_id\":\"integer?\"},\"returns\":\"selected tab object\"}",
    )
    ∷ (
      codes "browser.tab.close",
      codes "{\"params\":{\"tab_id\":\"integer?\"},\"returns\":\"true\"}",
    )
    ∷ (
      codes "browser.navigate",
      codes "{\"params\":{\"tab_id\":\"integer?\",\"uri\":\"string\"},\"returns\":\"tab object\"}",
    )
    ∷ (
      codes "browser.reload",
      codes "{\"params\":{\"tab_id\":\"integer?\"},\"returns\":\"tab object\"}",
    )
    ∷ (
      codes "browser.stop",
      codes "{\"params\":{\"tab_id\":\"integer?\"},\"returns\":\"tab object\"}",
    )
    ∷ (
      codes "browser.back",
      codes "{\"params\":{\"tab_id\":\"integer?\"},\"returns\":\"tab object\"}",
    )
    ∷ (
      codes "browser.forward",
      codes "{\"params\":{\"tab_id\":\"integer?\"},\"returns\":\"tab object\"}",
    )
    ∷ (
      codes "browser.cookies",
      codes
          "{\"params\":{\"tab_id\":\"integer?\",\"uri\":\"string?\"},\"returns\":\"cookie list scoped to the given or current URI\"}",
    )
    ∷ (
      codes "browser.profile",
      codes
          "{\"params\":{\"tab_id\":\"integer?\"},\"returns\":\"private and persistence metadata for the tab profile\"}",
    )
    ∷ (
      codes "net.fetch",
      codes
          "{\"params\":{\"url\":\"string (http/https only)\",\"method\":\"string? (default GET)\",\"headers\":\"object<string,string>? (no default User-Agent; set one via headers if the target requires it)\",\"body\":\"string?\",\"timeout_ms\":\"integer? 1000-25000, read/idle timeout (not a total deadline)\",\"max_bytes\":\"integer? 1-4194304, retained body cap\"},\"returns\":\"status, ok, url, headers, body, body_encoding (text|base64), truncated, bytes; bytes is the declared Content-Length when present, else the bytes read up to max_bytes; redirects are NOT auto-followed; browser cookies are NOT attached\"}",
    )
    ∷ (
      codes "page.javascript",
      codes
          "{\"params\":{\"tab_id\":\"integer?\",\"script\":\"string\"},\"returns\":\"JSON-serialisable page value\"}",
    )
    ∷ (
      codes "page.snapshot",
      codes
          "{\"params\":{\"tab_id\":\"integer?\"},\"returns\":\"semantic element inventory with @e refs, generation and page metadata\"}",
    )
    ∷ (
      codes "page.interact",
      codes
          "{\"params\":{\"tab_id\":\"integer?\",\"ref\":\"string?\",\"selector\":\"string?\",\"action\":\"click|focus|fill|type|clear|select|check|uncheck|scroll|key\",\"value\":\"string?\"},\"returns\":\"{ok:true} or {ok:false,error:stale_or_missing|disabled|hidden}\"}",
    )
    ∷ (
      codes "page.wait",
      codes
          "{\"params\":{\"tab_id\":\"integer?\",\"text\":\"string?\",\"selector\":\"string?\",\"ref\":\"string?\",\"timeout_ms\":\"integer (0-30000)\"},\"returns\":\"true or timeout error\"}",
    )
    ∷ (
      codes "page.inspect",
      codes
          "{\"params\":{\"tab_id\":\"integer?\",\"kind\":\"text|html|selection|metadata\"},\"returns\":\"page text, html, selection or metadata\"}",
    )
    ∷ (
      codes "page.screenshot",
      codes
          "{\"params\":{\"tab_id\":\"integer?\",\"path\":\"string\",\"full_page\":\"boolean?\"},\"returns\":\"written PNG path\"}",
    )
    ∷ (
      codes "page.diagnostics",
      codes
          "{\"params\":{\"tab_id\":\"integer?\"},\"returns\":\"bounded page console/error ring\"}",
    )
    ∷ (
      codes "page.diagnostics.clear",
      codes "{\"params\":{\"tab_id\":\"integer?\"},\"returns\":\"cleared diagnostics ring\"}",
    )
    ∷ (
      codes "page.native_diagnostics",
      codes
          "{\"params\":{\"tab_id\":\"integer?\"},\"returns\":\"last load error and web process termination\"}",
    )
    ∷ (
      codes "webkit.webview",
      codes
          "{\"params\":{\"tab_id\":\"integer?\"},\"returns\":\"selected WebKitWebView readable GObject properties\"}",
    )
    ∷ (
      codes "webkit.settings",
      codes
          "{\"params\":{\"tab_id\":\"integer?\"},\"returns\":\"selected WebKitSettings readable GObject properties\"}",
    )
    ∷ (
      codes "webkit.network",
      codes
          "{\"params\":{\"tab_id\":\"integer?\"},\"returns\":\"selected WebKitNetworkSession readable GObject properties\"}",
    )
    ∷ (
      codes "webkit.setting.set",
      codes
          "{\"params\":{\"tab_id\":\"integer?\",\"name\":\"string\",\"value\":\"bool|string|number\"},\"effect\":\"sets a writable WebKitSettings property\"}",
    )
    ∷ (
      codes "downloads.list",
      codes "{\"params\":{},\"returns\":\"download records with id, uri, destination and status\"}",
    )
    ∷ (codes "downloads.cancel", codes "{\"params\":{\"id\":\"integer\"},\"returns\":\"true\"}")
    ∷ (codes "downloads.remove", codes "{\"params\":{\"id\":\"integer\"},\"returns\":\"true\"}")
    ∷ (codes "bookmarks.list", codes "{\"params\":{},\"returns\":\"bookmark records\"}")
    ∷ (
      codes "bookmarks.add",
      codes "{\"params\":{\"uri\":\"string\",\"title\":\"string?\"},\"returns\":\"true\"}",
    )
    ∷ (codes "bookmarks.remove", codes "{\"params\":{\"uri\":\"string\"},\"returns\":\"true\"}")
    ∷ (codes "history.list", codes "{\"params\":{},\"returns\":\"history records\"}")
    ∷ (codes "history.clear", codes "{\"params\":{},\"returns\":\"true\"}")
    ∷ (codes "permissions.list", codes "{\"params\":{},\"returns\":\"permission decisions\"}")
    ∷ (
      codes "permissions.set",
      codes
          "{\"params\":{\"origin\":\"string\",\"capability\":\"string\",\"decision\":\"allow|deny|ask\"},\"returns\":\"true\"}",
    )
    ∷ (
      codes "events.since",
      codes
          "{\"params\":{\"after\":\"integer\",\"limit\":\"integer (1-1024)\"},\"returns\":\"latest sequence, dropped count and event list\"}",
    )
    ∷ (codes "events.clear", codes "{\"params\":{},\"returns\":\"true\"}")
    ∷ []

-- The entries of a name, or all of them without one.
unfoldable pub entries : Bytes → Bool → List (Bytes × Bytes) → Bytes
entries name first [] = []
entries name first ((method, schema) ∷ rest) =
    let skipped = not (is_empty name) && not (bytes_eq method name) in
    let others = entries name (first && skipped) rest in
    if skipped
    then others
    else (if first then [] else codes ",")
      ++ (json_string method ++ (codes ":" ++ (schema ++ others)))

unfoldable pub agent_describe_json : Bytes → Bytes
unfolding entries catalog
agent_describe_json name = codes "{" ++ (entries name true catalog ++ codes "}")
