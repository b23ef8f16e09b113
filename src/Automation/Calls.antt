-- ===== src/Automation/Calls.antt =====
-- src/automation.cpp: what one call of a script changes.
use vant.Prelude.{
  ◌≡◌, ◌⊎◌, refl, inl, inr, Bool, true, false, not, ◌||◌, List, [], ◌∷◌, Option, none, some, arith,
  if_intro, Bytes, Bool-cases,
}
use vant.Browser.{new_tab}
use vant.Navigation.{
  NavigationKind, web, internal, external, rejected, NavigationDecision, NavigationPolicy, resolve,
  trim,
}
use vant.Navigation.Policy.{Allows, AllowsDecision, HasMark, resolve-Allows}
use vant.Strings.{is_empty}
use vant.UserData.{add_bookmark}
use vant.Automation.{
  tabs_write, bookmarks_write, AutomationEngine, Status, is_page, is_web, open_decided, open_given,
  open_tab, bookmark_decided, bookmark_given, bookmark, stored,
}

-- The parts of the engine that no script changes.
pub record SameRights (e f : AutomationEngine) : Type 0 where
  pub grants : f.grants ≡ e.grants
  pub stopped : f.cancelled ≡ e.cancelled
  pub navigation : f.navigation ≡ e.navigation

pub SameRights-refl : (e : AutomationEngine) → SameRights e e
SameRights-refl e = record { grants = refl; stopped = refl; navigation = refl }

-- An address that `resolve` takes for a page.
abbrev pub IsPage : NavigationPolicy → Bytes → Type 0
IsPage policy uri =
    (input : Bytes) × (reason : Bytes) × (Allows policy input uri reason web
      ⊎ Allows policy input uri reason internal)

-- What opening a tab changes: nothing, or a new tab at the end for a page.
pub record Opens (e f : AutomationEngine) : Type 0 where
  pub rights : SameRights e f
  pub store : f.store ≡ e.store
  pub tabs :
      (f.model ≡ e.model)
      ⊎ ((uri : Bytes) × IsPage e.navigation uri × (f.model ≡ (new_tab e.model uri true).0))

pub Opens-refl : (e : AutomationEngine) → Opens e e
Opens-refl e = record { rights = SameRights-refl e; store = refl; tabs = inl refl }

IsPage-allowed :
    (policy : NavigationPolicy) (input uri reason : Bytes) (kind : NavigationKind)
    → Allows policy input uri reason kind
    → is_page kind ≡ true
    → IsPage policy uri
IsPage-allowed policy input uri reason web allows page = (input, reason, inl allows)
IsPage-allowed policy input uri reason internal allows page = (input, reason, inr allows)
IsPage-allowed policy input uri reason external allows page = ground (arith, page)
IsPage-allowed policy input uri reason rejected allows page = ground (arith, page)

open_decided-Opens :
    (makes : Bool) (input : Bytes) (o : Option NavigationDecision) (e : AutomationEngine)
    → AllowsDecision e.navigation input o
    → Opens e (open_decided makes o e).0
open_decided-Opens makes input none e allows = absurd allows
open_decided-Opens makes input (some d) e allows = elim (Bool-cases (is_page d.kind)) [
  | inl page ↦ rw page (record {
    rights = record { grants = refl; stopped = refl; navigation = refl };
    store = refl;
    tabs = inr (d.uri, IsPage-allowed e.navigation input d.uri d.reason d.kind allows page, refl);
  })
  | inr other ↦ rw other (Opens-refl e)
]

open_given-Opens :
    (makes : Bool) (args : List (Option Bytes)) (e : AutomationEngine)
    → HasMark e.navigation
    → Opens e (open_given makes args e).0
open_given-Opens makes [] e mark = Opens-refl e
open_given-Opens makes (none ∷ []) e mark = Opens-refl e
open_given-Opens makes (none ∷ b ∷ args) e mark = Opens-refl e
open_given-Opens makes (some text ∷ []) e mark =
    open_decided-Opens makes (trim text) (resolve e.navigation text) e
      (resolve-Allows e.navigation text mark)
open_given-Opens makes (some text ∷ b ∷ args) e mark = Opens-refl e

pub open_tab-Opens :
    (makes : Bool) (args : List (Option Bytes)) (e : AutomationEngine)
    → HasMark e.navigation
    → Opens e (open_tab makes args e).0
unfolding open_tab
open_tab-Opens makes args e mark =
    if_intro (λ (r : AutomationEngine × Status). Opens e r.0) e.cancelled _ _ (λ _. Opens-refl e)
      λ _.
        if_intro (λ (r : AutomationEngine × Status). Opens e r.0) (not (e.grants tabs_write)) _ _
          (λ _. Opens-refl e) (λ _. open_given-Opens makes args e mark)

-- What a bookmark changes: the rows of the bookmarks at most.
pub record Marks (e f : AutomationEngine) : Type 0 where
  pub rights : SameRights e f
  pub model : f.model ≡ e.model
  pub visits : f.store.history_rows ≡ e.store.history_rows
  pub files : f.store.download_rows ≡ e.store.download_rows
  pub icons : f.store.favicon_rows ≡ e.store.favicon_rows
  pub decisions : f.store.permission_rows ≡ e.store.permission_rows

Marks-refl : (e : AutomationEngine) → Marks e e
Marks-refl e = record {
  rights = SameRights-refl e;
  model = refl;
  visits = refl;
  files = refl;
  icons = refl;
  decisions = refl;
}

stored-Marks :
    (works makes : Bool) (d : NavigationDecision) (title : Bytes) (e : AutomationEngine)
    → Marks e
        (stored e (add_bookmark works (record { uri = d.uri; title = title }) e.store) makes).0
unfolding add_bookmark
stored-Marks works makes d title e = elim (Bool-cases (is_empty d.uri || not works)) [
  | inl fails ↦ rw fails (record {
    rights = record { grants = refl; stopped = refl; navigation = refl };
    model = refl;
    visits = refl;
    files = refl;
    icons = refl;
    decisions = refl;
  })
  | inr done ↦ rw done (record {
    rights = record { grants = refl; stopped = refl; navigation = refl };
    model = refl;
    visits = refl;
    files = refl;
    icons = refl;
    decisions = refl;
  })
]

bookmark_decided-Marks :
    (works makes : Bool) (o : Option NavigationDecision) (title : Bytes) (e : AutomationEngine)
    → Marks e (bookmark_decided works makes o title e).0
bookmark_decided-Marks works makes none title e = Marks-refl e
bookmark_decided-Marks works makes (some d) title e =
    if_intro (λ (r : AutomationEngine × Status). Marks e r.0) (not (is_web d.kind)) _ _
      (λ _. Marks-refl e) (λ _. stored-Marks works makes d title e)

bookmark_given-Marks :
    (works makes : Bool) (args : List (Option Bytes)) (e : AutomationEngine)
    → Marks e (bookmark_given works makes args e).0
bookmark_given-Marks works makes [] e = Marks-refl e
bookmark_given-Marks works makes (none ∷ []) e = Marks-refl e
bookmark_given-Marks works makes (some uri ∷ []) e = Marks-refl e
bookmark_given-Marks works makes (none ∷ title ∷ []) e = Marks-refl e
bookmark_given-Marks works makes (some uri ∷ none ∷ []) e = Marks-refl e
bookmark_given-Marks works makes (some uri ∷ some title ∷ []) e =
    bookmark_decided-Marks works makes (resolve e.navigation uri) title e
bookmark_given-Marks works makes (none ∷ title ∷ x ∷ args) e = Marks-refl e
bookmark_given-Marks works makes (some uri ∷ none ∷ x ∷ args) e = Marks-refl e
bookmark_given-Marks works makes (some uri ∷ some title ∷ x ∷ args) e = Marks-refl e

pub bookmark-Marks :
    (works makes : Bool) (args : List (Option Bytes)) (e : AutomationEngine)
    → Marks e (bookmark works makes args e).0
unfolding bookmark
bookmark-Marks works makes args e =
    if_intro (λ (r : AutomationEngine × Status). Marks e r.0) e.cancelled _ _ (λ _. Marks-refl e)
      λ _.
        if_intro (λ (r : AutomationEngine × Status). Marks e r.0) (not (e.grants bookmarks_write)) _
          _ (λ _. Marks-refl e) (λ _. bookmark_given-Marks works makes args e)

-- Neither a tab nor a bookmark without its capability.
pub refused_open :
    (makes : Bool) (args : List (Option Bytes)) (e : AutomationEngine)
    → e.grants tabs_write ≡ false
    → (open_tab makes args e).0 ≡ e
unfolding open_tab
refused_open makes args e denied =
    if_intro (λ (r : AutomationEngine × Status). r.0 ≡ e) e.cancelled _ _ (λ _. refl)
      λ _.
        if_intro (λ (r : AutomationEngine × Status). r.0 ≡ e) (not (e.grants tabs_write)) _ _
          (λ _. refl) (λ allowed. ground (arith, allowed, denied))

pub refused_bookmark :
    (works makes : Bool) (args : List (Option Bytes)) (e : AutomationEngine)
    → e.grants bookmarks_write ≡ false
    → (bookmark works makes args e).0 ≡ e
unfolding bookmark
refused_bookmark works makes args e denied =
    if_intro (λ (r : AutomationEngine × Status). r.0 ≡ e) e.cancelled _ _ (λ _. refl)
      λ _.
        if_intro (λ (r : AutomationEngine × Status). r.0 ≡ e) (not (e.grants bookmarks_write)) _ _
          (λ _. refl) (λ allowed. ground (arith, allowed, denied))
