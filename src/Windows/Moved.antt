-- ===== src/Windows/Moved.antt =====
-- What `move_tab_to_window` of native_app.cpp does to the tabs of all windows.
use vant.Prelude.{
  ℕ, ◌+◌, ◌-◌, min, ◌≡◌, refl, ap, sym, subst, ◌∙◌, inl, inr, Bool, false, ◌∷◌, ◌++◌, Option, none,
  some, arith, ◌==◌, if◌then◌else◌, length, get_elem?, Bool-cases, Option-cases,
}
use vant.Windows.{
  TabState, WindowState, ApplicationState, is_some_of, TabPosition, find_position, find_tab,
  find_window, update_window, set_window, publish_event, window_closing, clear_tab_drop_placeholder,
}
use vant.Windows.Tabs.{pointed, select_tab, after_removal}
use vant.Windows.Moves.{
  place_of, reorder, receive, give_away, transfer, refuses, move_between, move_tab_to_window,
}
use vant.Windows.Shape.{find_position-splits}
use vant.Windows.Conserve.{
  count_tabs, count_all, AreApart, count_tabs-append, count_tabs-insert, find_window-id,
  count_all-update, find-update_other, update-AreApart,
}

-- The window that takes the place of one that lost a tab.
after_removal-windows :
    (index : ℕ) (was_active : Bool) (w : WindowState) (a : ApplicationState)
    → (w' : WindowState) × (w'.tabs ≡ w.tabs)
      × ((after_removal index was_active w a).windows ≡ update_window w.id (λ old. w') a.windows)
unfolding after_removal select_tab window_closing publish_event clear_tab_drop_placeholder
after_removal-windows index was_active w a = elim (Bool-cases (length w.tabs == 0)) [
  | inl empty ↦ rw empty (_, refl, refl)
  | inr left ↦ elim (Bool-cases was_active) [
    | inl lost ↦ elim (Option-cases (get_elem? w.tabs (min index (length w.tabs - 1)))) [
      | inl none_there ↦ rw (left, lost, none_there) (_, refl, refl)
      | inr (t, there) ↦ rw (left, lost, there) (_, refl, refl)
    ]
    | inr kept ↦ rw (left, kept) (_, refl, refl)
  ]
]

count-split :
    (i : ℕ) (w : WindowState) (p : TabPosition)
    → w.tabs ≡ p.before ++ p.tab ∷ p.after
    → count_tabs i w.tabs ≡ (if p.tab.id == i then 1 else 0) + count_tabs i (p.before ++ p.after)
count-split i w p e = omega (
  arith,
  ap (count_tabs i) e,
  count_tabs-append i p.before (p.tab ∷ p.after),
  count_tabs-append i p.before p.after,
)

select_tab-windows :
    (t : TabState) (w : WindowState) (a : ApplicationState)
    → (w' : WindowState) × (w'.tabs ≡ w.tabs)
      × (w'.id ≡ w.id)
      × ((select_tab t w a).windows ≡ update_window w.id (λ old. w') a.windows)
unfolding select_tab
select_tab-windows t w a = (_, refl, refl, refl)

transfer-count_all :
    (i : ℕ) (p : TabPosition) (source target : WindowState) (destination : ℕ) (a : ApplicationState)
    → AreApart a.windows
    → find_window source.id a.windows ≡ some source
    → find_window target.id a.windows ≡ some target
    → (target.id == source.id) ≡ false
    → source.tabs ≡ p.before ++ p.tab ∷ p.after
    → count_all i (transfer p source target destination a).windows ≡ count_all i a.windows
unfolding transfer receive give_away
transfer-count_all i p source target destination a apart hs ht other e =
    let arrived : TabState = record p.tab { window = target.id } in
    let filled = receive p.tab destination target in
    let (t, tabs, id, windows) = select_tab-windows arrived filled a in
    let mid = select_tab arrived filled a in
    let (s, left, after) =
      after_removal-windows (length p.before) (is_some_of source.view p.tab.view)
        (give_away p source) mid in
    let mid_apart = subst AreApart (sym windows) (update-AreApart target.id t a.windows id apart) in
    let mid_found =
      ap (find_window source.id) windows
      ∙ find-update_other source.id target.id t a.windows id other
      ∙ hs in
    omega (
      arith,
      ap (count_all i) after,
      ap (count_all i) windows,
      ap (count_tabs i) left,
      ap (count_tabs i) tabs,
      count_all-update i source.id source s mid.windows mid_apart mid_found,
      count_all-update i target.id target t a.windows apart ht,
      count-split i source p e,
      count_tabs-insert i (min destination (length target.tabs)) arrived target.tabs,
    )

reorder-count_tabs :
    (i : ℕ) (p : TabPosition) (destination : ℕ) (w : WindowState)
    → w.tabs ≡ p.before ++ p.tab ∷ p.after
    → (count_tabs i (reorder p destination w).tabs ≡ count_tabs i w.tabs)
      × ((reorder p destination w).id ≡ w.id)
unfolding reorder
reorder-count_tabs i p destination w e =
    elim (Bool-cases (place_of p destination == length p.before)) [
      | inl same ↦ rw same (refl, refl)
      | inr moved ↦ rw moved (
        count_tabs-insert i (place_of p destination) p.tab (p.before ++ p.after)
            ∙ sym (count-split i w p e),
        refl,
      )
    ]

within-count_all :
    (i : ℕ) (p : TabPosition) (destination : ℕ) (w : WindowState) (a : ApplicationState)
    → AreApart a.windows
    → find_window w.id a.windows ≡ some w
    → w.tabs ≡ p.before ++ p.tab ∷ p.after
    → count_all i (set_window (reorder p destination w) a).windows ≡ count_all i a.windows
within-count_all i p destination w a apart h e =
    let (same, id) = reorder-count_tabs i p destination w e in
    ap (λ k. count_all i (update_window k (λ old. reorder p destination w) a.windows)) id
    ∙ omega (arith, same, count_all-update i w.id w (reorder p destination w) a.windows apart h)

-- What holds where a pointer points to nothing, and for every tab of a window that is there, holds of
-- what is done with the pointer.
pointed_found :
    {S : Type 0} (P : S → Type 0) (t : Option TabState) (a : ApplicationState) (missing : S)
    (k : TabPosition → WindowState → S)
    → P missing
    → ((p : TabPosition) (w : WindowState)
        → find_window w.id a.windows ≡ some w
        → w.tabs ≡ p.before ++ p.tab ∷ p.after
        → P (k p w))
    → P (pointed t a missing k)
pointed_found P none a missing k m h = m
pointed_found P (some t) a missing k m h = elim (Option-cases (find_window t.window a.windows)) [
  | inl lost ↦ rw lost m
  | inr (w, found) ↦ elim (Option-cases (find_position (λ s. s.id == t.id) w.tabs)) [
    | inl gone ↦ rw (found, gone) m
    | inr (p, there) ↦
        let id = find_window-id t.window a.windows w found in
        rw (found, there)
          (h p w (ap (λ k. find_window k a.windows) id ∙ found)
            (find_position-splits (λ s. s.id == t.id) w.tabs p there).0)
  ]
]

abbrev Conserves : ApplicationState → ℕ → ApplicationState × Bool → Type 0
Conserves a i r = (r.1 ≡ false → r.0 ≡ a) × (count_all i r.0.windows ≡ count_all i a.windows)

between :
    (a : ApplicationState) (i : ℕ) (t : WindowState) (p : TabPosition) (destination : ℕ)
    (w : WindowState)
    → AreApart a.windows
    → find_window w.id a.windows ≡ some w
    → w.tabs ≡ p.before ++ p.tab ∷ p.after
    → find_window t.id a.windows ≡ some t
    → Conserves a i (move_between a t destination p w)
between a i t p destination w apart h e ht = elim (Bool-cases (refuses w t)) [
  | inl no_way ↦ rw no_way (λ r. refl, refl)
  | inr way ↦ elim (Bool-cases (w.id == t.id)) [
    | inl within ↦ rw (way, within) (λ r. cc, within-count_all i p destination w a apart h e)
    | inr apart_too ↦
        let other : (t.id == w.id) ≡ false = ground (arith, apart_too) in
        rw (way, apart_too) (λ r. cc, transfer-count_all i p w t destination a apart h ht other e)
  ]
]

-- Where no two windows have one id: a refused move changes nothing, and any move leaves as many tabs
-- of each id in the windows together as there were, so none is lost or doubled.
pub move_tab_to_window_lem :
    (tab target destination i : ℕ) (a : ApplicationState)
    → AreApart a.windows
    → ((move_tab_to_window tab target destination a).1 ≡ false
        → (move_tab_to_window tab target destination a).0 ≡ a)
      × (count_all i (move_tab_to_window tab target destination a).0.windows
          ≡ count_all i a.windows)
unfolding move_tab_to_window
move_tab_to_window_lem tab target destination i a apart =
    elim (Option-cases (find_window target a.windows)) [
      | inl lost ↦ rw lost (λ r. refl, refl)
      | inr (t, found) ↦ rw found (
          pointed_found (Conserves a i) (find_tab tab a.windows) a (a, false)
            (move_between a t destination) (λ r. refl, refl)
            (λ p w h e. between a i t p destination w apart h e (
              ap (λ k. find_window k a.windows) (find_window-id target a.windows t found) ∙ found)))
    ]
