-- ===== src/Automation/Tests.antt =====
-- Scripts of src/automation.cpp at concrete engines.
use vant.Prelude.{◌≡◌, refl, Bool, true, false, List, [], ◌∷◌, none, some, codes, bytes_eq}
use vant.Browser.{FocusTarget}
use vant.Navigation.{
  resolve, resolve_trimmed, resolve_scheme, trim, trim_start, trim_end, is_blank, lower,
  explicit_host_port, query_mark,
}
use vant.Strings.{is_empty, contains, until, to_lower, starts_with, find_text}
use vant.Navigation.Policy.{HasMark}
use vant.UserData.Tests.{empty_store}
use vant.Automation.{
  Capability, AutomationEngine, Action, opens, bookmarks, cancel, act_all, open_tab, fails,
}
use vant.Automation.Laws.{Confined, PagesOnly, act_all-Confined, act_all-PagesOnly}

abbrev may_open : Capability → Bool
may_open Capability.tabs_write = true
may_open Capability.tabs_read = false
may_open Capability.bookmarks_write = false
may_open Capability.network = false
may_open Capability.filesystem = false
may_open Capability.clipboard = false
may_open Capability.page = false

abbrev engine : AutomationEngine
engine = record {
  model = record {
    workspace = codes "work";
    closed_limit = 5;
    next_id = 1;
    tabs = [];
    closed_tabs = [];
    active = none;
    focus = FocusTarget.page;
  };
  store = empty_store false;
  navigation = record { search_template = codes "https://s.org/?q={query}" };
  grants = may_open;
  cancelled = false;
}

engine_mark : HasMark engine.navigation
unfolding find_text starts_with query_mark
engine_mark = (codes "https://s.org/?q=", [], refl)

abbrev script : List Action
script =
    opens true (some (codes "nift.dev") ∷ [])
    ∷ bookmarks true true (some (codes "nift.dev") ∷ some (codes "Nift") ∷ [])
    ∷ opens true (some (codes "javascript:alert(1)") ∷ [])
    ∷ cancel
    ∷ opens true (some (codes "vantage:new") ∷ [])
    ∷ []

act_all-Confined_example : Confined engine (act_all script engine)
act_all-Confined_example = act_all-Confined script engine engine_mark

act_all-PagesOnly_example : PagesOnly (act_all script engine)
act_all-PagesOnly_example = act_all-PagesOnly script engine engine_mark tt

script_refused :
    (open_tab true (some (codes "javascript:alert(1)") ∷ []) engine).1
    ≡ fails (codes "openTab URI rejected")
unfolding open_tab resolve resolve_trimmed resolve_scheme trim trim_start trim_end is_blank is_empty
    contains until lower to_lower explicit_host_port bytes_eq starts_with
script_refused = refl
