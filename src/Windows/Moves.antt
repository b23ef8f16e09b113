-- ===== src/Windows/Moves.antt =====
-- src/native_app.cpp: moving a tab within its window and to another one.
use vant.Prelude.{
  ℕ, ◌-◌, min, Bool, true, false, not, ◌||◌, ◌∷◌, ◌++◌, Option, none, some, ltb, ◌==◌,
  if◌then◌else◌, length,
}
use vant.Windows.{
  TabState, WindowState, ApplicationState, is_some_of, TabPosition, find_tab, find_window,
  set_window,
}
use vant.Windows.Tabs.{select_tab, after_removal, pointed}
use vant.Windows.Opening.{insert_tab}

-- The place in the list without the tab that a place in the list with it becomes.
abbrev pub shifted : ℕ → ℕ → ℕ
shifted index destination = if ltb index destination then destination - 1 else destination

abbrev pub place_of : TabPosition → ℕ → ℕ
place_of p destination =
    shifted (length p.before) (min destination (length (p.before ++ p.tab ∷ p.after)))

unfoldable pub reorder : TabPosition → ℕ → WindowState → WindowState
reorder p destination w =
    if place_of p destination == length p.before
    then w
    else record w { tabs = insert_tab (place_of p destination) p.tab (p.before ++ p.after) }

-- The target with the tab, which is its window's from now on.
unfoldable pub receive : TabState → ℕ → WindowState → WindowState
receive t destination target = record target {
  tabs =
      insert_tab (min destination (length target.tabs)) (record t { window = target.id })
        target.tabs;
}

-- The source without the tab; an empty one has no view when it closes.
unfoldable pub give_away : TabPosition → WindowState → WindowState
give_away p w = record w {
  tabs = p.before ++ p.after;
  view = if length (p.before ++ p.after) == 0 then none else w.view;
}

unfoldable pub transfer :
    TabPosition → WindowState → WindowState → ℕ → ApplicationState → ApplicationState
transfer p source target destination a =
    after_removal (length p.before) (is_some_of source.view p.tab.view) (give_away p source)
      (select_tab (record p.tab { window = target.id }) (receive p.tab destination target) a)

unfoldable pub refuses : WindowState → WindowState → Bool
refuses source target =
    target.closed
    || target.app_mode
    || source.closed
    || not (if source.private_mode then target.private_mode else not target.private_mode)

abbrev pub move_between :
    ApplicationState → WindowState → ℕ → TabPosition → WindowState → ApplicationState × Bool
move_between a target destination p source =
    if refuses source target
    then (a, false)
    else if source.id == target.id
    then (set_window (reorder p destination source) a, true)
    else (transfer p source target destination a, true)

abbrev move_to :
    Option WindowState → ℕ → Option TabState → ApplicationState → ApplicationState × Bool
move_to none destination t a = (a, false)
move_to (some target) destination t a = pointed t a (a, false) (move_between a target destination)

-- `move_tab_to_window`, and what it returns.
unfoldable pub move_tab_to_window : ℕ → ℕ → ℕ → ApplicationState → ApplicationState × Bool
unfolding refuses
move_tab_to_window tab target destination a =
    move_to (find_window target a.windows) destination (find_tab tab a.windows) a
