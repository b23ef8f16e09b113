-- ===== src/Windows/Closed.antt =====
-- What closing a tab keeps of it, and what it tells agents, native_app.cpp.
use vant.Prelude.{
  ℕ, ◌-◌, min, ◌≡◌, ◌≢◌, refl, ap, ◌∙◌, inl, inr, Bool, List, [], ◌∷◌, ◌++◌, some, arith, leb,
  if◌then◌else◌, Bytes, codes, length, length-append, drop, get_elem?, Bool-cases, Option-cases,
}
use vant.Events.{publish}
use vant.Windows.{WindowState, ApplicationState, TabPosition, publish_event, tab_payload}
use vant.Windows.Tabs.{
  select_tab, restore_address, remember_uri, closed_tab_limit, without_tab, after_removal,
  close_position,
}
use vant.Windows.Opening.{pop_uri}

pop_uri-append : (us : List Bytes) (u : Bytes) → pop_uri (us ++ u ∷ []) ≡ some (us, u)
unfolding pop_uri
pop_uri-append [] u = refl
pop_uri-append (x ∷ []) u = refl
pop_uri-append (x ∷ y ∷ us) u = rw (pop_uri-append (y ∷ us) u, pop_uri) refl

pop_remembered :
    (us : List Bytes) (u : Bytes)
    → pop_uri (remember_uri u us)
      ≡ some (if leb closed_tab_limit (length us) then drop 1 us else us, u)
unfolding remember_uri
pop_remembered [] u = pop_uri-append [] u
pop_remembered (x ∷ us) u =
    ground (arith, length-append us (u ∷ []), pop_uri-append us u, pop_uri-append (x ∷ us) u)

-- The tab that is closed is the next to be reopened, at the address that it showed; before it stay the
-- closed tabs that were kept, without the oldest where 25 were.
pub pop-without_tab :
    (p : TabPosition) (w : WindowState)
    → pop_uri (without_tab p w).closed_tab_uris
      ≡ some (
        if leb closed_tab_limit (length w.closed_tab_uris)
            then drop 1 w.closed_tab_uris
            else w.closed_tab_uris,
        restore_address p.tab,
      )
unfolding without_tab
pop-without_tab p w = pop_remembered w.closed_tab_uris (restore_address p.tab)

after_removal-events :
    (index : ℕ) (was_active : Bool) (w : WindowState) (a : ApplicationState)
    → length w.tabs ≢ 0
    → (after_removal index was_active w a).agent_events ≡ a.agent_events
unfolding after_removal select_tab
after_removal-events index was_active w a h = elim (Bool-cases was_active) [
  | inl lost ↦ elim (Option-cases (get_elem? w.tabs (min index (length w.tabs - 1)))) [
    | inl none_there ↦ ground (arith, lost, none_there)
    | inr (t, there) ↦ ground (arith, lost, there)
  ]
  | inr kept ↦ ground (arith, kept)
]

-- Where a `std::string` is empty after it was moved from, closing one of several tabs tells agents of
-- a tab with an empty address, whatever address the tab had.
pub close_position-event :
    (moved_from : Bytes → Bytes) (p : TabPosition) (w : WindowState) (a : ApplicationState)
    → ((u : Bytes) → moved_from u ≡ [])
    → length (p.before ++ p.after) ≢ 0
    → (close_position moved_from p w a).agent_events
      ≡ (publish a.agent_events (codes "tab.closed") (tab_payload p.tab.id w.id [])).0
unfolding close_position publish_event without_tab
close_position-event moved_from p w a empty left =
    after_removal-events _ _ _ _ left
    ∙ ap (λ u. (publish a.agent_events (codes "tab.closed") (tab_payload p.tab.id w.id u)).0)
        (empty (restore_address p.tab))
