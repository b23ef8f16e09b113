-- ===== src/Windows/Select.antt =====
-- src/native_app.cpp: which tab of a window is shown, by a click on it or a scroll over the tabs.
use vant.Prelude.{
  ℕ, ◌+◌, ◌-◌, ◌<◌, ◌≡◌, inl, inr, Bool, true, false, not, ◌&&◌, ◌||◌, List, ◌∷◌, ◌++◌, none, some,
  arith, ltb, ◌==◌, if◌then◌else◌, length, length-append, get_elem?, ap, Bool-cases, Option-cases,
  subst, sym,
}
use vant.Windows.{
  TabState, WindowState, ApplicationState, TabPosition, is_some_of, find_position, find_tab,
}
use vant.Windows.Tabs.{select_tab, select_at, pointed}
use vant.Windows.Shape.{
  IsShaped, AllShaped, has_view, has_view-append, has_view-get_elem, find_position-splits,
  pointed_intro,
}
use vant.Windows.Keeps.{select_tab-AllShaped}

unfoldable pub tab_selected : ℕ → ApplicationState → ApplicationState
tab_selected id a = pointed (find_tab id a.windows) a a (λ p w. select_tab p.tab w a)

-- From the tab at the index to its scroll_to.
abbrev scroll_to : Bool → ℕ → WindowState → ApplicationState → ApplicationState × Bool
scroll_to down index w a =
    if down && index + 1 == length w.tabs || not down && index == 0
    then (a, true)
    else (select_at (get_elem? w.tabs (if down then index + 1 else index - 1)) w a, true)

-- `moves` is whether the wheel was moved by 0.01 at least, `down` whether that was to the right, and
-- `again` whether the last scroll was less than 50 ms ago.
unfoldable pub tab_strip_scrolled :
    Bool → Bool → Bool → WindowState → ApplicationState → ApplicationState × Bool
tab_strip_scrolled moves down again w a =
    if ltb (length w.tabs) 2 || not moves
    then (a, false)
    else if again
    then (a, true)
    else elim (find_position (λ t. is_some_of w.view t.view) w.tabs) [
      | none ↦ (a, false)
      | some p ↦ scroll_to down (length p.before) w a
    ]

pub tab_selected-AllShaped :
    (id : ℕ) (a : ApplicationState) → AllShaped a → AllShaped (tab_selected id a)
unfolding tab_selected
tab_selected-AllShaped id a all =
    pointed_intro AllShaped (find_tab id a.windows) a a (λ p w. select_tab p.tab w a) all all
      (λ p w h e. select_tab-AllShaped p.tab w a h.owned h.limit (here p w e) all)
  where
    here :
        (p : TabPosition) (w : WindowState)
        → w.tabs ≡ p.before ++ p.tab ∷ p.after
        → has_view (some p.tab.view) w.tabs ≡ true
    here p w e =
        subst (λ (ts : List TabState). has_view (some p.tab.view) ts ≡ true) (sym e)
          (ground (arith, has_view-append (some p.tab.view) p.before (p.tab ∷ p.after)))

select_at-AllShaped :
    (i : ℕ) (w : WindowState) (a : ApplicationState)
    → i < length w.tabs
    → IsShaped w
    → AllShaped a
    → AllShaped (select_at (get_elem? w.tabs i) w a)
select_at-AllShaped i w a h shaped all =
    let (t, found, shown) = has_view-get_elem w.tabs i h in
    rw found (select_tab-AllShaped t w a shaped.owned shaped.limit shown all)

scroll_to-AllShaped :
    (down : Bool) (index : ℕ) (w : WindowState) (a : ApplicationState)
    → index < length w.tabs
    → IsShaped w
    → AllShaped a
    → AllShaped (scroll_to down index w a).0
scroll_to-AllShaped true index w a h shaped all = elim (Bool-cases (index + 1 == length w.tabs)) [
  | inl last ↦ rw last all
  | inr inside ↦
      rw inside (select_at-AllShaped (index + 1) w a (ground (arith, inside, h)) shaped all)
]
scroll_to-AllShaped false index w a h shaped all = elim (Bool-cases (index == 0)) [
  | inl first ↦ rw first all
  | inr inside ↦ rw inside (select_at-AllShaped (index - 1) w a (omega (arith, h)) shaped all)
]

pub scrolled-AllShaped :
    (moves down again : Bool) (w : WindowState) (a : ApplicationState)
    → IsShaped w
    → AllShaped a
    → AllShaped (tab_strip_scrolled moves down again w a).0
unfolding tab_strip_scrolled
scrolled-AllShaped moves down again w a shaped all =
    elim (Bool-cases (ltb (length w.tabs) 2 || not moves)) [
      | inl still ↦ rw still all
      | inr many ↦ elim (Bool-cases again) [
        | inl soon ↦ rw (many, soon) all
        | inr late ↦ elim (Option-cases (find_position (λ t. is_some_of w.view t.view) w.tabs)) [
          | inl lost ↦ rw (many, late, lost, tab_strip_scrolled) all
          | inr (p, found) ↦
              let e = (find_position-splits _ w.tabs p found).0 in
              let inside : length p.before < length w.tabs = omega (
                arith,
                ap (λ (ts : List TabState). length ts) e,
                length-append p.before (p.tab ∷ p.after),
              ) in
              rw (many, late, found, tab_strip_scrolled)
                (scroll_to-AllShaped down (length p.before) w a inside shaped all)
        ]
      ]
    ]
