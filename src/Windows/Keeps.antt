-- ===== src/Windows/Keeps.antt =====
-- The handlers of native_app.cpp keep every window well shaped.
use vant.Prelude.{
  ℕ, ◌-◌, ◌≤◌, min, ◌≡◌, ap, subst, inl, inr, Bool, true, false, ◌||◌, List, [], ◌∷◌, ◌++◌, some,
  arith, ◌==◌, if◌then◌else◌, Bytes, length, All, All-append, All-left, All-right, Bool-cases,
  length-append,
}
use vant.Windows.{
  TabState, WindowState, ApplicationState, is_some_of, TabPosition, find_tab, set_window,
  publish_event, window_closing, clear_tab_drop_placeholder,
}
use vant.Windows.Tabs.{
  select_tab, remember_uri, without_tab, after_removal, close_position, close_tab, mark_closing,
  queue_tab_close, closed_tab_limit, restore_address,
}
use vant.Windows.Shape.{
  IsOwned, has_view, IsShaped, AllShaped, set_window-AllShaped, update_window-All, pointed_intro,
  has_view-append, has_view-get_elem,
}

pub publish-AllShaped :
    (kind payload : Bytes) (a : ApplicationState)
    → AllShaped a
    → AllShaped (publish_event kind payload a)
unfolding publish_event
publish-AllShaped kind payload a h = h

pub select_tab-AllShaped :
    (t : TabState) (w : WindowState) (a : ApplicationState)
    → All (IsOwned w) w.tabs
    → length w.closed_tab_uris ≤ closed_tab_limit
    → has_view (some t.view) w.tabs ≡ true
    → AllShaped a
    → AllShaped (select_tab t w a)
unfolding select_tab
select_tab-AllShaped t w a owned limit shown all =
    update_window-All IsShaped w.id _ a.windows
      (record { owned = owned; showing = ground (arith, shown); limit = limit }) all

pub window_closing-AllShaped :
    (w : WindowState) (a : ApplicationState)
    → IsShaped w
    → AllShaped a
    → AllShaped (window_closing w a)
unfolding window_closing publish_event clear_tab_drop_placeholder
window_closing-AllShaped w a h all =
    set_window-AllShaped _ a (record { owned = h.owned; showing = h.showing; limit = h.limit }) all

-- A window that lost a tab is well shaped afterwards, if its tabs are its own, and the active view was
-- the lost tab's or is still there.
pub after_removal-AllShaped :
    (index : ℕ) (was_active : Bool) (w : WindowState) (a : ApplicationState)
    → All (IsOwned w) w.tabs
    → length w.closed_tab_uris ≤ closed_tab_limit
    → (was_active || has_view w.view w.tabs) ≡ true
    → AllShaped a
    → AllShaped (after_removal index was_active w a)
unfolding after_removal
after_removal-AllShaped index was_active w a owned limit there all =
    elim (Bool-cases (length w.tabs == 0)) [
      | inl empty ↦ rw empty (
          window_closing-AllShaped w a
            (record { owned = owned; showing = ground (arith, empty); limit = limit }) all)
      | inr left ↦ elim (Bool-cases was_active) [
        | inl lost ↦
            let (t, e, v) =
              has_view-get_elem w.tabs (min index (length w.tabs - 1)) (ground (arith, left)) in
            rw (left, lost, e) (select_tab-AllShaped t w a owned limit v all)
        | inr kept ↦
            rw (left, kept)
              (set_window-AllShaped w a
                (record { owned = owned; showing = ground (arith, kept, there); limit = limit })
                all)
      ]
    ]

length-remember_uri :
    (uri : Bytes) (kept : List Bytes)
    → length kept ≤ closed_tab_limit
    → length (remember_uri uri kept) ≤ closed_tab_limit
unfolding remember_uri
length-remember_uri uri [] h = ground arith
length-remember_uri uri (k ∷ kept) h = ground (arith, length-append kept (uri ∷ []))

-- The view of a tab that is taken out, or one that is still there.
pub view_left :
    (w : WindowState) (p : TabPosition)
    → IsShaped w
    → w.tabs ≡ p.before ++ p.tab ∷ p.after
    → (is_some_of w.view p.tab.view || has_view w.view (p.before ++ p.after)) ≡ true
view_left w p h e =
    let shown = h.showing in
    ground (
      arith,
      e,
      ap (has_view w.view) e,
      ap (λ (ts : List TabState). length ts) e,
      length-append p.before (p.tab ∷ p.after),
      has_view-append w.view p.before (p.tab ∷ p.after),
      has_view-append w.view p.before p.after,
    )

-- The tabs of a window without one of them.
pub IsOwned-left :
    (w : WindowState) (p : TabPosition)
    → IsShaped w
    → w.tabs ≡ p.before ++ p.tab ∷ p.after
    → IsOwned w p.tab × All (IsOwned w) (p.before ++ p.after)
IsOwned-left w p h e =
    let parts = subst (All (IsOwned w)) e h.owned in
    let right = All-right (IsOwned w) p.before (p.tab ∷ p.after) parts in
    (
      right.0,
      All-append (IsOwned w) p.before p.after
          (All-left (IsOwned w) p.before (p.tab ∷ p.after) parts) right.1,
    )

close_position-AllShaped :
    (moved_from : Bytes → Bytes) (p : TabPosition) (w : WindowState) (a : ApplicationState)
    → IsShaped w
    → w.tabs ≡ p.before ++ p.tab ∷ p.after
    → AllShaped a
    → AllShaped (close_position moved_from p w a)
unfolding close_position without_tab
close_position-AllShaped moved_from p w a h e all =
    after_removal-AllShaped _ _ _ _ (IsOwned-left w p h e).1
      (length-remember_uri (restore_address p.tab) w.closed_tab_uris h.limit) (view_left w p h e)
      (publish-AllShaped _ _ a all)

pub close_tab-AllShaped :
    (moved_from : Bytes → Bytes) (id : ℕ) (a : ApplicationState)
    → AllShaped a
    → AllShaped (close_tab moved_from id a)
unfolding close_tab
close_tab-AllShaped moved_from id a all =
    pointed_intro AllShaped (find_tab id a.windows) a a (λ p w. close_position moved_from p w a) all
      all (λ p w h e. close_position-AllShaped moved_from p w a h e all)

pub queue_tab_close-AllShaped :
    (id : ℕ) (a : ApplicationState) → AllShaped a → AllShaped (queue_tab_close id a).0
unfolding queue_tab_close
queue_tab_close-AllShaped id a all =
    pointed_intro (λ (r : ApplicationState × Bool). AllShaped r.0) (find_tab id a.windows) a
      (a, false)
      (λ p w. if p.tab.closing then (a, false) else (set_window (mark_closing p w) a, true)) all all
      (λ p w h e. elim (Bool-cases p.tab.closing) [
        | inl waits ↦ rw waits all
        | inr idle ↦ rw idle (set_window-AllShaped (mark_closing p w) a (marked p w h e) all)
      ])
  where
    marked :
        (p : TabPosition) (w : WindowState)
        → IsShaped w
        → w.tabs ≡ p.before ++ p.tab ∷ p.after
        → IsShaped (mark_closing p w)
    marked p w h e =
        let parts = subst (All (IsOwned w)) e h.owned in
        let right = All-right (IsOwned w) p.before (p.tab ∷ p.after) parts in
        record {
          owned =
              All-append (IsOwned w) p.before (record p.tab { closing = true } ∷ p.after)
                (All-left (IsOwned w) p.before (p.tab ∷ p.after) parts) right;
          showing = ground (
            arith,
            h.showing,
            e,
            ap (has_view w.view) e,
            length-append p.before (p.tab ∷ p.after),
            length-append p.before (record p.tab { closing = true } ∷ p.after),
            has_view-append w.view p.before (p.tab ∷ p.after),
            has_view-append w.view p.before (record p.tab { closing = true } ∷ p.after),
          );
          limit = h.limit;
        }
