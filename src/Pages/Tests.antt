-- ===== src/Pages/Tests.antt =====
-- Loads of a page, src/native_app.cpp, at concrete signals.
use vant.Prelude.{◌≤◌, ◌≡◌, refl, false, List, [], ◌∷◌, ◌++◌, none, some, codes, length, bytes_eq}
use vant.Events.{create}
use vant.Strings.{contains, is_empty, starts_with, until}
use vant.UserData.Tests.{empty_store}
use vant.Windows.Opening.{fresh_tab, fresh_window}
use vant.Windows.History.{launched}
use vant.Pages.{LoadEvent, Page, local_path_uri}
use vant.Navigation.{
  NavigationKind, NavigationDecision, NavigationPolicy, resolve, resolve_trimmed, trim,
  explicit_host_port, resolve_scheme, lower,
}
use vant.Pages.Laws.{Load, PageSignal, asked, told, load_all, renewals, load_all-bounded}
use vant.Pages.Recovery.{rounds, repeated, load_all-loops}

abbrev page : Page
page = record {
  tab = record (fresh_tab (fresh_window (launched false) false) 1 1) {
    pending_web_uri = codes "https://example.org/";
  };
  private_mode = false;
  agent_events = create 2048;
  store = empty_store false;
  loads = [];
}

abbrev blank : Load
blank = record {
  event = LoadEvent.committed;
  uri = some (codes "about:blank");
  title = none;
  now = 7;
  rowid = 1;
}

abbrev policy : NavigationPolicy
policy = (fresh_window (launched false) false).policy

abbrev blanks : List PageSignal
blanks =
    told blank
    ∷ told blank
    ∷ told (record blank { event = LoadEvent.finished })
    ∷ asked (codes "https://example.org/")
    ∷ told blank
    ∷ []

load_all-bounded_example : length (load_all policy blanks page).loads ≤ 2
unfolding renewals starts_with
load_all-bounded_example = load_all-bounded policy blanks page

abbrev decision : NavigationDecision
decision = record { kind = NavigationKind.web; uri = codes "https://example.org/"; reason = [] }

load_all-loops_example :
    (load_all policy (rounds 3 (codes "https://example.org/")) page).loads
    ≡ [] ++ repeated 3 (codes "https://example.org/")
unfolding resolve is_empty resolve_trimmed trim contains explicit_host_port bytes_eq until
    resolve_scheme lower
load_all-loops_example =
    load_all-loops policy 3 decision page refl refl refl
      (record { pending = refl; is_free = refl; is_outside = refl })

home_file :
    local_path_uri
      (some (codes "/home/u"))
      (bytes_eq (codes "/home/u/a.html"))
      (λ path. some (codes "file:///home/u/a.html"))
      (codes "~/a.html")
    ≡ codes "file:///home/u/a.html"
unfolding local_path_uri bytes_eq starts_with until
home_file = refl
