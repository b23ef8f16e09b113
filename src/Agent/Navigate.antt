-- ===== src/Agent/Navigate.antt =====
-- src/native_app.cpp: where agents can take a tab.
use vant.Prelude.{◌≡◌, ◌⊎◌, [], true, Bytes, codes}
use vant.Strings.{is_empty}
use vant.Navigation.{web, internal, NavigationPolicy, trim}
use vant.Navigation.Policy.{Allows, IsExternalScheme, scheme}
use vant.Rpc.{AgentRequest, agent_error, json_param_string}
use vant.Windows.{TabState, set_window}
use vant.Downloads.{Owner}
use vant.Pages.{placed_tab}
use vant.Agent.{Dispatched, replied, TabPlace}
use vant.Agent.Browser.{on_app}

abbrev pub uri_of : AgentRequest → Bytes
uri_of r = json_param_string r.params_json (codes "uri")

-- The addresses of a tab that was sent to what the policy makes of the input, read without `resolve`:
-- one that the tab waits for from the Web, or a page of the browser.
abbrev pub IsSent : NavigationPolicy → Bytes → TabState → Type 0
IsSent policy input t =
    ((t.internal_uri ≡ []) × Allows policy input t.pending_web_uri [] web)
    ⊎ ((t.pending_web_uri ≡ []) × Allows policy input t.internal_uri [] internal)

-- Why a request is refused: it has no address, its address is another program's, or neither.
abbrev pub Because : AgentRequest → Bytes → Type 0
Because r code =
    ((is_empty (uri_of r) ≡ true) × (code ≡ codes "invalid_params"))
    ⊎ (IsExternalScheme (scheme (trim (uri_of r))) × (code ≡ codes "navigation_external"))
    ⊎ (code ≡ codes "navigation_rejected")

-- How a request for a tab ends: an error and nothing changed, or the tab sent and all else as it was.
pub data Navigated (r : AgentRequest) (o : Owner) (p : TabPlace) : Dispatched → Type 0 where
  refuses :
      (code message : Bytes)
      → Because r code
      → Navigated r o p (replied (agent_error r.id code message) o)
  sends :
      (t : TabState) (text : Bytes)
      → t.id ≡ p.position.tab.id
      → IsSent p.window.policy (trim (uri_of r)) t
      → Navigated r o p
          (replied text (on_app o (set_window (placed_tab p.position t p.window) o.app)))
