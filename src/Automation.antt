-- ===== src/Automation.antt =====
-- src/automation.h and src/automation.cpp: what a script may do to the browser. The JavaScript runtime
-- is not modelled: a script is the sequence of the calls that it makes, an argument of a call is its
-- text where it is a string, and whether a number can be made for the result is an argument.
pub mod Calls
pub mod Laws
pub mod Tests
use vant.Prelude.{
  ℕ, Bool, true, false, not, ◌&&◌, ◌||◌, List, [], ◌∷◌, Option, none, some, ◌==◌, if◌then◌else◌,
  Bytes, codes, length,
}
use vant.Browser.{BrowserModel, new_tab}
use vant.Navigation.{
  NavigationKind, web, internal, external, rejected, NavigationDecision, NavigationPolicy, resolve,
}
use vant.UserData.{UserDataStore, add_bookmark}

pub data Capability : Type 0 where
  tabs_read tabs_write bookmarks_write network filesystem clipboard page : Capability

pub record AutomationEngine : Type 0 where
  pub model : BrowserModel
  pub store : UserDataStore
  pub navigation : NavigationPolicy
  pub grants : Capability → Bool
  pub cancelled : Bool

-- How a call ends: with a number, with an error that the script may catch, with the runtime's own
-- failure to make the number, or with a C++ exception.
pub data Status : Type 0 where
  number : ℕ → Status
  fails : Bytes → Status
  exhausted thrown : Status

abbrev pub number_or : Bool → ℕ → Status
number_or makes n = if makes then number n else exhausted

unfoldable pub tab_count : Bool → List (Option Bytes) → AutomationEngine → Status
tab_count makes args e =
    if not (length args == 0)
    then fails (codes "tabCount expects no arguments")
    else if e.cancelled
    then fails (codes "automation cancelled")
    else if not (e.grants tabs_read)
    then fails (codes "capability denied: tabs.read")
    else number_or makes (length e.model.tabs)

abbrev pub is_page : NavigationKind → Bool
is_page web = true
is_page internal = true
is_page external = false
is_page rejected = false

abbrev pub is_web : NavigationKind → Bool
is_web web = true
is_web internal = false
is_web external = false
is_web rejected = false

-- `none` is an exception of `resolve`; the number of the result is the active tab, which the new one is.
abbrev pub open_decided :
    Bool → Option NavigationDecision → AutomationEngine → AutomationEngine × Status
open_decided makes none e = (e, thrown)
open_decided makes (some d) e =
    if not (is_page d.kind) then (e, fails (codes "openTab URI rejected")) else (
      record e { model = (new_tab e.model d.uri true).0 },
      number_or makes (new_tab e.model d.uri true).1,
    )

-- The arguments as texts, where there is one and it is a string.
abbrev pub open_given : Bool → List (Option Bytes) → AutomationEngine → AutomationEngine × Status
open_given makes (some text ∷ []) e = open_decided makes (resolve e.navigation text) e
open_given makes (none ∷ []) e = (e, fails (codes "openTab URI must be a string"))
open_given makes _ e = (e, fails (codes "openTab expects one URI"))

unfoldable pub open_tab : Bool → List (Option Bytes) → AutomationEngine → AutomationEngine × Status
open_tab makes args e =
    if e.cancelled
    then (e, fails (codes "automation cancelled"))
    else if not (e.grants tabs_write)
    then (e, fails (codes "capability denied: tabs.write"))
    else open_given makes args e

abbrev pub stored : AutomationEngine → UserDataStore × Bool → Bool → AutomationEngine × Status
stored e (d, true) makes = (record e { store = d }, number_or makes 1)
stored e (d, false) makes = (record e { store = d }, thrown)

abbrev pub bookmark_decided :
    Bool → Bool → Option NavigationDecision → Bytes → AutomationEngine → AutomationEngine × Status
bookmark_decided works makes none title e = (e, thrown)
bookmark_decided works makes (some d) title e =
    if not (is_web d.kind)
    then (e, fails (codes "bookmark URI rejected"))
    else stored e (add_bookmark works (record { uri = d.uri; title = title }) e.store) makes

abbrev pub bookmark_given :
    Bool → Bool → List (Option Bytes) → AutomationEngine → AutomationEngine × Status
bookmark_given works makes (some uri ∷ some title ∷ []) e =
    bookmark_decided works makes (resolve e.navigation uri) title e
bookmark_given works makes (some uri ∷ none ∷ []) e =
    (e, fails (codes "bookmark arguments must be strings"))
bookmark_given works makes (none ∷ title ∷ []) e =
    (e, fails (codes "bookmark arguments must be strings"))
bookmark_given works makes _ e = (e, fails (codes "bookmark expects URI and title"))

-- `works` tells whether SQLite's statement succeeds.
unfoldable pub bookmark :
    Bool → Bool → List (Option Bytes) → AutomationEngine → AutomationEngine × Status
bookmark works makes args e =
    if e.cancelled
    then (e, fails (codes "automation cancelled"))
    else if not (e.grants bookmarks_write)
    then (e, fails (codes "capability denied: bookmarks.write"))
    else bookmark_given works makes args e

-- What happens to an engine: a script calls a function of `vant`, or the program stops its scripts
-- and lets them go on.
pub data Action : Type 0 where
  counts opens : Bool → List (Option Bytes) → Action
  bookmarks : Bool → Bool → List (Option Bytes) → Action
  cancel reset_cancel : Action

unfoldable pub act : Action → AutomationEngine → AutomationEngine
act (counts makes args) e = e
act (opens makes args) e = (open_tab makes args e).0
act (bookmarks works makes args) e = (bookmark works makes args e).0
act cancel e = record e { cancelled = true }
act reset_cancel e = record e { cancelled = false }

unfoldable pub act_all : List Action → AutomationEngine → AutomationEngine
act_all [] e = e
act_all (a ∷ rest) e = act_all rest (act a e)
