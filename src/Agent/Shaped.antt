-- ===== src/Agent/Shaped.antt =====
-- src/native_app.cpp: agents keep the windows well shaped, and private tabs in private windows.
use vant.Prelude.{List, [], ◌∷◌, if_intro, Bytes, codes, bytes_eq, All}
use vant.Strings.{is_empty}
use vant.Rpc.{AgentRequest, json_param_string}
use vant.Windows.Shape.{AllShaped}
use vant.Windows.Keeps.{close_tab-AllShaped}
use vant.Windows.Privacy.{create_window-AllShaped}
use vant.Downloads.{Owner}
use vant.Agent.{Host, Dispatched, replied, elsewhere, thrown, Handler}
use vant.Agent.Data.{
  downloads_list, downloads_remove, bookmarks_list, bookmarks_add, bookmarks_remove, history_list,
  history_clear, permissions_list, permissions_set, events_since, events_clear,
}
use vant.Agent.Browser.{
  browser_profile, browser_windows, browser_tabs, browser_window_new, browser_tab_close,
}
use vant.Agent.Dispatch.{
  agent_status, agent_version, agent_capabilities, describe, net_fetch, required, asks_page,
  asks_with, asks_one_of, is_one_of, kinds, actions, called, methods, dispatch, owner_after,
  dispatch_all,
}
use vant.Agent.Keeps.{
  Ends, KeepsShape, on_tab-Ends, with_store-Ends, downloads_cancel-Ends, browser_tab_new-Ends,
  browser_tab_select-Ends, browser_navigate-Ends, browser_call-Ends,
}

asks_page-Ends : KeepsShape asks_page
asks_page-Ends h r o all = on_tab-Ends r o _ all (λ p there. tt)

required-Ends :
    (key message : Bytes) (r : AgentRequest) (o : Owner)
    → AllShaped o.app
    → Ends (required key message r o elsewhere)
required-Ends key message r o all =
    if_intro Ends (is_empty (json_param_string r.params_json key)) _ _ (λ missing. all)
      (λ given. tt)

asks_with-Ends : (key message : Bytes) → KeepsShape (asks_with key message)
asks_with-Ends key message h r o all =
    on_tab-Ends r o _ all (λ p there. required-Ends key message r o all)

asks_one_of-Ends :
    (key : Bytes) (words : List Bytes) (message : Bytes)
    → KeepsShape (asks_one_of key words message)
asks_one_of-Ends key words message h r o all = on_tab-Ends r o _ all (λ p there.
    if_intro Ends (is_one_of (json_param_string r.params_json key) words) _ _ (λ known. tt)
      (λ other. all))

-- What holds of one method, and of those behind it.
infixr 4 ◌also◌
◌also◌ : {P Q : Type 0} → P → Q → P × Q
p also q = (p, q)

methods-KeepsShape : All (λ (m : Bytes × Handler). KeepsShape m.1) methods
unfolding methods agent_status agent_version agent_capabilities describe net_fetch downloads_list
    downloads_remove bookmarks_list bookmarks_add bookmarks_remove history_list history_clear
    permissions_list permissions_set events_since events_clear browser_profile browser_windows
    browser_tabs browser_window_new browser_tab_close
methods-KeepsShape =
    (λ h r o all. all)
    also (λ h r o all. all)
    also (λ h r o all. all)
    also (λ h r o all. all)
    also downloads_cancel-Ends
    also (λ h r o all. with_store-Ends r o _ all)
    also (λ h r o all. all)
    also (λ h r o all. with_store-Ends r o _ all)
    also (λ h r o all. with_store-Ends r o _ all)
    also (λ h r o all. all)
    also (λ h r o all. with_store-Ends r o _ all)
    also (λ h r o all. all)
    also (λ h r o all. with_store-Ends r o _ all)
    also asks_page-Ends
    also (λ h r o all. all)
    also (λ h r o all. all)
    also asks_page-Ends
    also asks_page-Ends
    also asks_page-Ends
    also asks_page-Ends
    also (λ h r o all. required-Ends _ _ r o all)
    also asks_with-Ends _ _
    also asks_one_of-Ends (codes "kind") kinds
        (codes "kind must be text, html, selection, or metadata")
    also asks_one_of-Ends (codes "action") actions (codes "unknown interaction action")
    also asks_page-Ends
    also asks_page-Ends
    also (λ h r o all. all)
    also (λ h r o all. all)
    also asks_page-Ends
    also asks_page-Ends
    also asks_page-Ends
    also asks_with-Ends _ _
    also (λ h r o all. all)
    also (λ h r o all. all)
    also (λ h r o all. create_window-AllShaped _ _ _ o.app all)
    also browser_tab_new-Ends
    also browser_tab_select-Ends
    also (λ h r o all.
        on_tab-Ends r o _ all (λ p there. close_tab-AllShaped h.moved_from _ o.app all))
    also browser_navigate-Ends
    also browser_call-Ends
    also browser_call-Ends
    also browser_call-Ends
    also browser_call-Ends
    also tt

called-Ends :
    (ms : List (Bytes × Handler))
    → All (λ (m : Bytes × Handler). KeepsShape m.1) ms
    → KeepsShape (called ms)
called-Ends [] keeps h r o all = all
called-Ends ((name, f) ∷ ms) keeps h r o all =
    if_intro Ends (bytes_eq r.method name) _ _ (λ here. keeps.0 h r o all)
      (λ later. called-Ends ms keeps.1 h r o all)

dispatch-Ends : KeepsShape dispatch
unfolding dispatch
dispatch-Ends = called-Ends methods methods-KeepsShape

owner_after-AllShaped :
    (o : Owner) (d : Dispatched) → AllShaped o.app → Ends d → AllShaped (owner_after o d).app
owner_after-AllShaped o (replied text p) all ends = ends
owner_after-AllShaped o elsewhere all ends = all
owner_after-AllShaped o thrown all ends = all

-- Whatever agents ask for, in any order, the windows stay well shaped: a tab belongs to its window
-- and has a private session just where the window is private, the active view is one of the window's
-- tabs as long as it has any, and no more than 25 closed addresses are kept.
pub dispatch_all-AllShaped :
    (requests : List (Host × AgentRequest)) (o : Owner)
    → AllShaped o.app
    → AllShaped (dispatch_all requests o).app
unfolding dispatch_all
dispatch_all-AllShaped [] o all = all
dispatch_all-AllShaped ((h, r) ∷ rest) o all =
    dispatch_all-AllShaped rest _
      (owner_after-AllShaped o (dispatch h r o) all (dispatch-Ends h r o all))
