-- ===== src/Windows/Privacy.antt =====
-- Opening, moving and dragging tabs, native_app.cpp, keeps every window well shaped: so a private tab
-- stays in private windows.
use vant.Prelude.{
  ℕ, ◌+◌, ◌≤◌, ◌≡◌, refl, ap, sym, subst, ◌∙◌, inl, inr, Bool, true, not, ◌||◌, ◌&&◌, List, [], ◌∷◌,
  Option, none, some, arith, ◌==◌, Bytes, length, drop, take, All, All-append, All-left, All-right,
  Bool-cases, Option-cases, length-append, take-append-drop,
}
use vant.Navigation.{NavigationKind, NavigationDecision, resolve}
use vant.Windows.{TabState, WindowState, ApplicationState, is_some_of, find_window, set_window}
use vant.Windows.Tabs.{closed_tab_limit}
use vant.Windows.Opening.{
  NewView, addressed, load_decision, load_resolved, fresh_tab, tab_of, insert_tab, open_tab,
  fresh_window, first_tab, create_window, new_tab, pop_uri, reopen_popped, reopen_closed_tab,
}
use vant.Windows.Shape.{
  IsOwned, has_view, IsShaped, AllShaped, set_window-AllShaped, find_window-All, has_view-append,
}
use vant.Windows.Keeps.{publish-AllShaped, select_tab-AllShaped}

pub insert_tab-All :
    (P : TabState → Type 0) (n : ℕ) (t : TabState) (ts : List TabState)
    → P t
    → All P ts
    → All P (insert_tab n t ts)
insert_tab-All P n t ts h all =
    let whole = subst (All P) (sym (take-append-drop n ts)) all in
    All-append P (take n ts) (t ∷ drop n ts) (All-left P (take n ts) (drop n ts) whole)
      (h, All-right P (take n ts) (drop n ts) whole)

pub has_view-insert_tab :
    (n : ℕ) (t : TabState) (ts : List TabState) → has_view (some t.view) (insert_tab n t ts) ≡ true
has_view-insert_tab n t ts =
    has_view-append (some t.view) (take n ts) (t ∷ drop n ts) ∙ ground arith

-- Inserting a tab keeps the view that was there.
pub has_view-insert_kept :
    (v : Option ℕ) (n : ℕ) (t : TabState) (ts : List TabState)
    → has_view v (insert_tab n t ts) ≡ (is_some_of v t.view || has_view v ts)
has_view-insert_kept v n t ts = ground (
  arith,
  has_view-append v (take n ts) (t ∷ drop n ts),
  has_view-append v (take n ts) (drop n ts),
  ap (has_view v) (take-append-drop n ts),
)

length-insert_tab :
    (n : ℕ) (t : TabState) (ts : List TabState) → length (insert_tab n t ts) ≡ length ts + 1
length-insert_tab n t ts = omega (
  arith,
  length-append (take n ts) (t ∷ drop n ts),
  length-append (take n ts) (drop n ts),
  ap (λ (xs : List TabState). length xs) (take-append-drop n ts),
)

addressed-IsOwned :
    (w : WindowState) (kind : NavigationKind) (uri : Bytes) (t : TabState)
    → IsOwned w t
    → IsOwned w (addressed kind uri t)
addressed-IsOwned w NavigationKind.web uri t h = h
addressed-IsOwned w NavigationKind.internal uri t h = h
addressed-IsOwned w NavigationKind.external uri t h = h
addressed-IsOwned w NavigationKind.rejected uri t h = h

pub loaded-IsOwned :
    (w : WindowState) (d : Option NavigationDecision) (t : TabState)
    → IsOwned w t
    → IsOwned w (load_resolved d t)
unfolding load_decision
loaded-IsOwned w none t h = h
loaded-IsOwned w (some d) t h = addressed-IsOwned w d.kind d.uri _ h

tab_of-IsOwned :
    (v : NewView) (uri : Bytes) (w : WindowState) (a : ApplicationState)
    → IsOwned w (tab_of v uri w a)
tab_of-IsOwned v uri w a =
    loaded-IsOwned w (resolve w.policy uri) (fresh_tab w a.next_tab_id v.number) (refl, refl)

open_tab-AllShaped :
    (v : NewView) (uri : Bytes) (w : WindowState) (a : ApplicationState)
    → All (IsOwned w) w.tabs
    → length w.closed_tab_uris ≤ closed_tab_limit
    → AllShaped a
    → AllShaped (open_tab v uri w a)
unfolding open_tab
open_tab-AllShaped v uri w a owned limit all = publish-AllShaped _ _ _ (
    select_tab-AllShaped (tab_of v uri w a) _ _
      (insert_tab-All (IsOwned w) _ (tab_of v uri w a) w.tabs (tab_of-IsOwned v uri w a) owned)
      limit (has_view-insert_tab _ (tab_of v uri w a) w.tabs) all)

fresh_window-IsShaped :
    (a : ApplicationState) (private_mode : Bool) → IsShaped (fresh_window a private_mode)
unfolding fresh_window
fresh_window-IsShaped a private_mode = record { owned = tt; showing = refl; limit = omega arith }

pub create_window-AllShaped :
    (v : Option NewView) (uri : Bytes) (private_mode : Bool) (a : ApplicationState)
    → AllShaped a
    → AllShaped (create_window v uri private_mode a)
unfolding create_window
create_window-AllShaped v uri private_mode a all = publish-AllShaped _ _ _ (
    filled v _ (
      All-append IsShaped a.windows (fresh_window a private_mode ∷ []) all
        (fresh_window-IsShaped a private_mode, tt)))
  where
    filled :
        (v : Option NewView) (b : ApplicationState)
        → AllShaped b
        → AllShaped (first_tab v uri (fresh_window a private_mode) b)
    filled none b h = h
    filled (some v) b h =
        let s = fresh_window-IsShaped a private_mode in
        open_tab-AllShaped v uri (fresh_window a private_mode) b s.owned s.limit h

pub new_tab-AllShaped :
    (v : NewView) (uri : Bytes) (w : WindowState) (a : ApplicationState)
    → All (IsOwned w) w.tabs
    → length w.closed_tab_uris ≤ closed_tab_limit
    → AllShaped a
    → AllShaped (new_tab v uri w a)
unfolding new_tab
new_tab-AllShaped v uri w a owned limit all =
    elim (Bool-cases (w.app_mode && not (length w.tabs == 0))) [
      | inl apart ↦ rw apart (create_window-AllShaped (some v) uri w.private_mode a all)
      | inr here ↦ rw here (open_tab-AllShaped v uri w a owned limit all)
    ]

pop_uri-length :
    (us kept : List Bytes) (u : Bytes) → pop_uri us ≡ some (kept, u) → length us ≡ length kept + 1
unfolding pop_uri
pop_uri-length [] kept u e = cc
pop_uri-length (x ∷ []) kept u e = ground arith
pop_uri-length (x ∷ y ∷ us) kept u e = elim (Option-cases (pop_uri (y ∷ us))) [
  | inl miss ↦ ground arith
  | inr ((k, l), found) ↦ ground (arith, pop_uri-length (y ∷ us) k l found)
]

pub reopen-AllShaped :
    (v : NewView) (window : ℕ) (a : ApplicationState)
    → AllShaped a
    → AllShaped (reopen_closed_tab v window a)
unfolding reopen_closed_tab
reopen-AllShaped v window a all = elim (Option-cases (find_window window a.windows)) [
  | inl lost ↦ rw (lost, reopen_closed_tab) all
  | inr (w, found) ↦
      rw (found, reopen_closed_tab)
        (popped w (find_window-All IsShaped window a.windows w all found)
          (pop_uri w.closed_tab_uris) refl)
]
  where
    popped :
        (w : WindowState)
        → IsShaped w
        → (o : Option (List Bytes × Bytes)) → pop_uri w.closed_tab_uris ≡ o
        → AllShaped (reopen_popped v o w a)
    popped w h none e = all
    popped w h (some (kept, uri)) e =
        let short : length kept ≤ closed_tab_limit =
          omega (arith, pop_uri-length w.closed_tab_uris kept uri e, h.limit) in
        let rest : WindowState = record w { closed_tab_uris = kept } in
        new_tab-AllShaped v uri rest (set_window rest a) h.owned short (
          set_window-AllShaped rest a
            (record { owned = h.owned; showing = h.showing; limit = short }) all)
