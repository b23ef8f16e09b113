-- ===== src/Agent/Tests.antt =====
-- Requests of agents to src/native_app.cpp at concrete browsers.
use vant.Prelude.{◌≡◌, refl, false, true, [], ◌∷◌, List, inl, none, some, Bytes, codes, bytes_eq}
use vant.Strings.{is_empty, find_text, starts_with}
use vant.Rpc.{AgentRequest, agent_ok, json_param_string, field, locate}
use vant.UserData.Tests.{empty_store}
use vant.Windows.Shape.{AllShaped}
use vant.Windows.History.{Step, launched, run, run-AllShaped}
use vant.Downloads.{Owner, fresh_context, find_context, set_context}
use vant.Agent.{Host, TabPlace, replied, thrown}
use vant.Windows.{TabState, WindowState}
use vant.Windows.Opening.{fresh_tab, fresh_window}
use vant.Agent.Dispatch.{dispatch, dispatch_all}
use vant.Agent.Shaped.{dispatch_all-AllShaped}
use vant.Agent.Thrown.{dispatch-thrown, dispatch-cancel}

abbrev pub host : Host
host = record {
  socket = codes "/run/vantage-agent-1000.sock";
  native = codes "GTK 4.14.0; WebKitGTK 2.44.0";
  title = λ view. none;
  loading = λ view. false;
  moved_from = λ uri. [];
  works = true;
  view = record { number = 7; loaded = none };
  loaded = some (codes "https://nift.dev");
}

abbrev opening : List Step
opening =
    Step.open_window (some (record { number = 1; loaded = none })) (codes "vantage:new") false ∷ []

-- A window with one tab, and a private download that is running.
abbrev pub browser : Owner
browser = record {
  app = run (λ uri. []) opening (launched false);
  store = empty_store false;
  active_downloads = fresh_context 4 true false none ∷ [];
}

abbrev request : Bytes → Bytes → AgentRequest
request method params = record { id = codes "1"; method = method; params_json = params }

dispatch_all-AllShaped_example :
    AllShaped
      (dispatch_all
        ((host, request (codes "browser.tab.new") (codes "{\"uri\":\"nift.dev\"}"))
          ∷ (host, request (codes "browser.navigate") (codes "{\"tab_id\":1,\"uri\":\"nift.dev\"}"))
          ∷ (host, request (codes "browser.tab.close") (codes "{\"tab_id\":1}"))
          ∷ [])
        browser).app
dispatch_all-AllShaped_example =
    dispatch_all-AllShaped
      ((host, request (codes "browser.tab.new") (codes "{\"uri\":\"nift.dev\"}"))
        ∷ (host, request (codes "browser.navigate") (codes "{\"tab_id\":1,\"uri\":\"nift.dev\"}"))
        ∷ (host, request (codes "browser.tab.close") (codes "{\"tab_id\":1}"))
        ∷ [])
      browser (run-AllShaped (λ uri. []) opening false (refl, tt))

no_uri : is_empty (json_param_string (codes "{}") (codes "uri")) ≡ true
unfolding is_empty json_param_string field locate find_text starts_with bytes_eq
no_uri = refl

dispatch-thrown_example :
    dispatch host (request (codes "bookmarks.add") (codes "{}")) browser ≡ thrown
dispatch-thrown_example =
    dispatch-thrown host (request (codes "bookmarks.add") (codes "{}")) browser (inl (refl, no_uri))

dispatch-cancel_example :
    dispatch host (request (codes "downloads.cancel") (codes "{}")) browser
    ≡ replied (agent_ok (codes "1") (codes "true")) (record browser {
      active_downloads =
          set_context
            (record (fresh_context 4 true false none) { cancelled = true })
            browser.active_downloads;
    })
unfolding find_context
dispatch-cancel_example =
    dispatch-cancel host (codes "1") browser (fresh_context 4 true false none) refl refl

abbrev navigate : AgentRequest
navigate = request (codes "browser.navigate") (codes "{\"uri\":\"nift.dev\"}")

abbrev shown : TabState
shown = fresh_tab (fresh_window (launched false) false) 1 1

abbrev window : WindowState
window = record (fresh_window (launched false) false) { tabs = shown ∷ []; view = some 1 }

abbrev first_place : TabPlace
first_place = record { window = window; position = record { before = []; tab = shown; after = [] } }

abbrev one_window : Owner
one_window = record browser { app = record (launched false) { windows = window ∷ [] } }
