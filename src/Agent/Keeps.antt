-- ===== src/Agent/Keeps.antt =====
-- src/native_app.cpp: what the methods on windows and tabs make of windows that are well shaped.
use vant.Prelude.{
  ◌≡◌, refl, ap, sym, subst, inl, inr, Bool, true, false, ◌∷◌, Option, none, some, arith, ◌==◌,
  if_intro, Bytes, codes, ℤ, pos, negsuc, Option-cases,
}
use vant.Strings.{is_empty}
use vant.Navigation.{NavigationKind, web, internal, external, rejected, NavigationDecision}
use vant.UserData.{UserDataStore}
use vant.Rpc.{AgentRequest, json_param_string}
use vant.Windows.{TabState}
use vant.Windows.Shape.{IsOwned, AllShaped, has_view, has_view-append, set_window-AllShaped}
use vant.Windows.Keeps.{select_tab-AllShaped, IsOwned-left}
use vant.Windows.Opening.{addressed, load_decision}
use vant.Windows.Privacy.{new_tab-AllShaped, loaded-IsOwned}
use vant.Downloads.{Owner, find_context, cancel_download}
use vant.Agent.{
  Host, Dispatched, replied, elsewhere, thrown, Handler, TabPlace, number_param, agent_window,
  agent_tab, on_tab,
}
use vant.Agent.Data.{with_store, downloads_cancel, cancel_number}
use vant.Agent.Browser.{
  browser_tab_new, tab_reply, after_call, go_to, decided, browser_tab_select, browser_navigate,
  browser_call,
}
use vant.Agent.Places.{HasTab, agent_tab-HasTab, agent_window-IsShaped, placed_tab-IsShaped}

-- The windows after a request are well shaped, where it is answered here.
abbrev pub Ends : Dispatched → Type 0
Ends (replied text o) = AllShaped o.app
Ends elsewhere = Unit
Ends thrown = Unit

pub on_tab-Ends :
    (r : AgentRequest) (o : Owner) (k : TabPlace → Dispatched)
    → AllShaped o.app
    → ((p : TabPlace) → HasTab p → Ends (k p))
    → Ends (on_tab r o k)
on_tab-Ends r o k all h =
    elim (Option-cases (agent_tab (number_param r (codes "tab_id")) o.app.windows)) [
      | inl miss ↦ rw miss all
      | inr (p, found) ↦ rw found (h p (agent_tab-HasTab _ o.app.windows p all found))
    ]

pub with_store-Ends :
    (r : AgentRequest) (o : Owner) (s : UserDataStore × Bool)
    → AllShaped o.app
    → Ends (with_store r o s)
with_store-Ends r o (d, true) all = all
with_store-Ends r o (d, false) all = tt

cancel_number-app : (n : ℤ) (o : Owner) → (cancel_number n o).app ≡ o.app
unfolding cancel_download
cancel_number-app (negsuc n) o = refl
cancel_number-app (pos n) o =
    elim (Option-cases (find_context (λ c. c.record_id == n) o.active_downloads)) [
      | inl miss ↦ rw miss refl
      | inr (c, found) ↦ rw found refl
    ]

pub downloads_cancel-Ends :
    (h : Host) (r : AgentRequest) (o : Owner) → AllShaped o.app → Ends (downloads_cancel h r o)
unfolding downloads_cancel
downloads_cancel-Ends h r o all = subst AllShaped (sym (cancel_number-app _ o)) all

addressed-view :
    (kind : NavigationKind) (uri : Bytes) (t : TabState) → (addressed kind uri t).view ≡ t.view
addressed-view web uri t = refl
addressed-view internal uri t = refl
addressed-view external uri t = refl
addressed-view rejected uri t = refl

load_decision-view : (d : NavigationDecision) (t : TabState) → (load_decision d t).view ≡ t.view
unfolding load_decision
load_decision-view d t = addressed-view d.kind d.uri _

after_call-Ends :
    (h : Host) (r : AgentRequest) (o : Owner) (p : TabPlace) (t : TabState)
    → AllShaped o.app
    → HasTab p
    → IsOwned p.window t
    → t.view ≡ p.position.tab.view
    → Ends (after_call h r o p t)
after_call-Ends h r o p t all there owned view =
    set_window-AllShaped _ o.app
      (placed_tab-IsShaped p (record t { view_uri = h.loaded }) there owned view) all

tab_reply-Ends :
    (h : Host) (r : AgentRequest) (o : Owner) (p : Option TabPlace)
    → AllShaped o.app
    → Ends (tab_reply h r o p)
tab_reply-Ends h r o none all = tt
tab_reply-Ends h r o (some p) all = all

pub browser_tab_new-Ends :
    (h : Host) (r : AgentRequest) (o : Owner) → AllShaped o.app → Ends (browser_tab_new h r o)
unfolding browser_tab_new
browser_tab_new-Ends h r o all =
    elim (Option-cases (agent_window (number_param r (codes "window_id")) o.app.windows)) [
      | inl miss ↦ rw miss all
      | inr (w, found) ↦
          let s = agent_window-IsShaped _ o.app.windows w all found in
          rw found (tab_reply-Ends h r _ _ (new_tab-AllShaped h.view _ w o.app s.owned s.limit all))
    ]

pub browser_tab_select-Ends :
    (h : Host) (r : AgentRequest) (o : Owner) → AllShaped o.app → Ends (browser_tab_select h r o)
unfolding browser_tab_select
browser_tab_select-Ends h r o all = on_tab-Ends r o _ all (λ p there.
    select_tab-AllShaped p.position.tab p.window o.app there.shaped.owned there.shaped.limit
      (here p there) all)
  where
    here : (p : TabPlace) → HasTab p → has_view (some p.position.tab.view) p.window.tabs ≡ true
    here p there = ground (
      arith,
      ap (has_view (some p.position.tab.view)) there.splits,
      has_view-append (some p.position.tab.view) p.position.before
          (p.position.tab ∷ p.position.after),
    )

go_to-Ends :
    (h : Host) (r : AgentRequest) (o : Owner) (p : TabPlace) (kind : NavigationKind)
    (d : NavigationDecision)
    → AllShaped o.app
    → HasTab p
    → Ends (go_to h r o p kind d)
go_to-Ends h r o p web d all there =
    after_call-Ends h r o p (load_decision d p.position.tab) all there
      (loaded-IsOwned p.window (some d) _
        (IsOwned-left p.window p.position there.shaped there.splits).0)
      (load_decision-view d p.position.tab)
go_to-Ends h r o p internal d all there =
    after_call-Ends h r o p (load_decision d p.position.tab) all there
      (loaded-IsOwned p.window (some d) _
        (IsOwned-left p.window p.position there.shaped there.splits).0)
      (load_decision-view d p.position.tab)
go_to-Ends h r o p external d all there = all
go_to-Ends h r o p rejected d all there = all

decided-Ends :
    (h : Host) (r : AgentRequest) (o : Owner) (p : TabPlace) (d : Option NavigationDecision)
    → AllShaped o.app
    → HasTab p
    → Ends (decided h r o p d)
decided-Ends h r o p none all there = tt
decided-Ends h r o p (some d) all there = go_to-Ends h r o p d.kind d all there

pub browser_navigate-Ends :
    (h : Host) (r : AgentRequest) (o : Owner) → AllShaped o.app → Ends (browser_navigate h r o)
unfolding browser_navigate
browser_navigate-Ends h r o all = on_tab-Ends r o _ all (λ p there.
    if_intro Ends (is_empty (json_param_string r.params_json (codes "uri"))) _ _ (λ missing. all)
      (λ given. decided-Ends h r o p _ all there))

-- A handler that keeps the windows well shaped.
abbrev pub KeepsShape : Handler → Type 0
KeepsShape f = (h : Host) (r : AgentRequest) (o : Owner) → AllShaped o.app → Ends (f h r o)

pub browser_call-Ends : KeepsShape browser_call
unfolding browser_call
browser_call-Ends h r o all = on_tab-Ends r o _ all (λ p there.
    after_call-Ends h r o p p.position.tab all there
      (IsOwned-left p.window p.position there.shaped there.splits).0 refl)
