-- ===== src/Automation/Laws.antt =====
-- src/automation.cpp: scripts do to the browser what was granted, and no more.
use vant.Prelude.{
  ◌≡◌, ◌⊎◌, ◌∙◌, refl, ap, sym, subst, inl, inr, Bool, true, false, List, [], ◌∷◌, Option, arith,
  if_intro, Bytes, All, All-append,
}
use vant.Browser.{Tab, new_tab}
use vant.Navigation.Policy.{HasMark}
use vant.UserData.{UserDataStore}
use vant.Automation.{
  Capability, tabs_write, bookmarks_write, AutomationEngine, Status, open_tab, bookmark, Action,
  counts, opens, bookmarks, cancel, reset_cancel, act, act_all,
}
use vant.Automation.Calls.{IsPage, open_tab-Opens, bookmark-Marks, refused_open, refused_bookmark}

-- What scripts leave of an engine as it was.
pub record Confined (e f : AutomationEngine) : Type 0 where
  pub grants : f.grants ≡ e.grants
  pub navigation : f.navigation ≡ e.navigation
  pub model : e.grants tabs_write ≡ false → f.model ≡ e.model
  pub store : e.grants bookmarks_write ≡ false → f.store ≡ e.store
  pub visits : f.store.history_rows ≡ e.store.history_rows
  pub files : f.store.download_rows ≡ e.store.download_rows
  pub icons : f.store.favicon_rows ≡ e.store.favicon_rows
  pub decisions : f.store.permission_rows ≡ e.store.permission_rows

unchanged :
    (e f : AutomationEngine)
    → f.grants ≡ e.grants
    → f.navigation ≡ e.navigation
    → f.model ≡ e.model
    → f.store ≡ e.store
    → Confined e f
unchanged e f grants navigation model store = record {
  grants = grants;
  navigation = navigation;
  model = λ _. model;
  store = λ _. store;
  visits = ap (λ (d : UserDataStore). d.history_rows) store;
  files = ap (λ (d : UserDataStore). d.download_rows) store;
  icons = ap (λ (d : UserDataStore). d.favicon_rows) store;
  decisions = ap (λ (d : UserDataStore). d.permission_rows) store;
}

Confined-trans : (e f g : AutomationEngine) → Confined e f → Confined f g → Confined e g
Confined-trans e f g h k = record {
  grants = k.grants ∙ h.grants;
  navigation = k.navigation ∙ h.navigation;
  model = λ d. k.model (ap (λ (s : Capability → Bool). s tabs_write) h.grants ∙ d) ∙ h.model d;
  store = λ d. k.store (ap (λ (s : Capability → Bool). s bookmarks_write) h.grants ∙ d) ∙ h.store d;
  visits = k.visits ∙ h.visits;
  files = k.files ∙ h.files;
  icons = k.icons ∙ h.icons;
  decisions = k.decisions ∙ h.decisions;
}

act-Confined : (a : Action) (e : AutomationEngine) → HasMark e.navigation → Confined e (act a e)
unfolding act
act-Confined (counts makes args) e mark = unchanged _ _ refl refl refl refl
act-Confined (opens makes args) e mark =
    let o = open_tab-Opens makes args e mark in
    record {
      grants = o.rights.grants;
      navigation = o.rights.navigation;
      model = λ d. ap (λ (x : AutomationEngine). x.model) (refused_open makes args e d);
      store = λ _. o.store;
      visits = ap (λ (d : UserDataStore). d.history_rows) o.store;
      files = ap (λ (d : UserDataStore). d.download_rows) o.store;
      icons = ap (λ (d : UserDataStore). d.favicon_rows) o.store;
      decisions = ap (λ (d : UserDataStore). d.permission_rows) o.store;
    }
act-Confined (bookmarks works makes args) e mark =
    let b = bookmark-Marks works makes args e in
    record {
      grants = b.rights.grants;
      navigation = b.rights.navigation;
      model = λ _. b.model;
      store = λ d. ap (λ (x : AutomationEngine). x.store) (refused_bookmark works makes args e d);
      visits = b.visits;
      files = b.files;
      icons = b.icons;
      decisions = b.decisions;
    }
act-Confined cancel e mark = unchanged _ _ refl refl refl refl
act-Confined reset_cancel e mark = unchanged _ _ refl refl refl refl

-- Whatever scripts call, without the capability to write tabs the tab model stays as it was, without
-- the one to write bookmarks the store does, and the history, the downloads, the icons and the
-- permissions stay in every case; no script changes what is granted.
pub act_all-Confined :
    (rest : List Action) (e : AutomationEngine) → HasMark e.navigation → Confined e (act_all rest e)
unfolding act_all
act_all-Confined [] e mark = unchanged _ _ refl refl refl refl
act_all-Confined (a ∷ rest) e mark =
    let one = act-Confined a e mark in
    Confined-trans e (act a e) (act_all rest (act a e)) one
      (act_all-Confined rest (act a e) (subst HasMark (sym one.navigation) mark))

abbrev pub PagesOnly : AutomationEngine → Type 0
PagesOnly e = All (λ (t : Tab). IsPage e.navigation t.uri) e.model.tabs

opened-PagesOnly :
    (e f : AutomationEngine)
    → f.navigation ≡ e.navigation
    → (f.model ≡ e.model)
      ⊎ ((uri : Bytes) × IsPage e.navigation uri × (f.model ≡ (new_tab e.model uri true).0))
    → PagesOnly e
    → PagesOnly f
unfolding new_tab
opened-PagesOnly e f navigation (inl same) h = rw (navigation, same) h
opened-PagesOnly e f navigation (inr (uri, page, model)) h =
    rw (navigation, model)
      (All-append (λ (t : Tab). IsPage e.navigation t.uri) e.model.tabs _ h (page, tt))

act-PagesOnly :
    (a : Action) (e : AutomationEngine) → HasMark e.navigation → PagesOnly e → PagesOnly (act a e)
unfolding act
act-PagesOnly (counts makes args) e mark h = h
act-PagesOnly (opens makes args) e mark h =
    let o = open_tab-Opens makes args e mark in
    opened-PagesOnly e (open_tab makes args e).0 o.rights.navigation o.tabs h
act-PagesOnly (bookmarks works makes args) e mark h =
    let b = bookmark-Marks works makes args e in
    opened-PagesOnly e (bookmark works makes args e).0 b.rights.navigation (inl b.model) h
act-PagesOnly cancel e mark h = h
act-PagesOnly reset_cancel e mark h = h

-- Where every tab is at an address that `resolve` takes for a web page, an address of a file among
-- them, or for an internal page, that stays so whatever scripts call.
pub act_all-PagesOnly :
    (rest : List Action) (e : AutomationEngine)
    → HasMark e.navigation
    → PagesOnly e
    → PagesOnly (act_all rest e)
unfolding act_all
act_all-PagesOnly [] e mark h = h
act_all-PagesOnly (a ∷ rest) e mark h =
    let one = act-Confined a e mark in
    act_all-PagesOnly rest (act a e) (subst HasMark (sym one.navigation) mark)
      (act-PagesOnly a e mark h)

-- Calls, and no `reset_cancel`.
abbrev pub IsCall : Action → Type 0
IsCall (counts makes args) = Unit
IsCall (opens makes args) = Unit
IsCall (bookmarks works makes args) = Unit
IsCall cancel = ⊥
IsCall reset_cancel = ⊥

stopped_open :
    (makes : Bool) (args : List (Option Bytes)) (e : AutomationEngine)
    → e.cancelled ≡ true
    → (open_tab makes args e).0 ≡ e
unfolding open_tab
stopped_open makes args e h =
    if_intro (λ (r : AutomationEngine × Status). r.0 ≡ e) e.cancelled _ _ (λ _. refl)
      (λ runs. ground (arith, runs, h))

stopped_bookmark :
    (works makes : Bool) (args : List (Option Bytes)) (e : AutomationEngine)
    → e.cancelled ≡ true
    → (bookmark works makes args e).0 ≡ e
unfolding bookmark
stopped_bookmark works makes args e h =
    if_intro (λ (r : AutomationEngine × Status). r.0 ≡ e) e.cancelled _ _ (λ _. refl)
      (λ runs. ground (arith, runs, h))

-- Once the scripts are cancelled, their calls change nothing until they may go on.
pub act_all-cancelled :
    (rest : List Action) (e : AutomationEngine)
    → e.cancelled ≡ true
    → All IsCall rest
    → act_all rest e ≡ e
unfolding act_all act
act_all-cancelled [] e h calls = refl
act_all-cancelled (counts makes args ∷ rest) e h calls = act_all-cancelled rest e h calls.1
act_all-cancelled (opens makes args ∷ rest) e h calls =
    ap (act_all rest) (stopped_open makes args e h) ∙ act_all-cancelled rest e h calls.1
act_all-cancelled (bookmarks works makes args ∷ rest) e h calls =
    ap (act_all rest) (stopped_bookmark works makes args e h) ∙ act_all-cancelled rest e h calls.1
act_all-cancelled (cancel ∷ rest) e h calls = absurd calls.0
act_all-cancelled (reset_cancel ∷ rest) e h calls = absurd calls.0
