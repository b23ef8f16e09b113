-- ===== src/Windows/Transfers.antt =====
-- Moving a tab, native_app.cpp, keeps every window well shaped.
use vant.Prelude.{
  ℕ, ◌≡◌, refl, ◌∙◌, inl, inr, Bool, true, false, ◌||◌, List, [], ◌∷◌, ◌++◌, Option, none, arith,
  ◌==◌, if◌then◌else◌, length, Bool-cases, Option-cases,
}
use vant.Windows.{
  TabState, WindowState, ApplicationState, is_some_of, TabPosition, find_tab, find_window,
}
use vant.Windows.Moves.{
  place_of, reorder, receive, give_away, transfer, refuses, move_between, move_tab_to_window,
}
use vant.Windows.Shape.{
  IsOwned, has_view, IsShaped, AllShaped, set_window-AllShaped, find_window-All, pointed_intro,
}
use vant.Windows.Keeps.{select_tab-AllShaped, after_removal-AllShaped, view_left, IsOwned-left}
use vant.Windows.Privacy.{insert_tab-All, has_view-insert_tab, has_view-insert_kept}

reorder-IsShaped :
    (p : TabPosition) (destination : ℕ) (w : WindowState)
    → IsShaped w
    → w.tabs ≡ p.before ++ p.tab ∷ p.after
    → IsShaped (reorder p destination w)
unfolding reorder
reorder-IsShaped p destination w h e =
    elim (Bool-cases (place_of p destination == length p.before)) [
      | inl same ↦ rw same h
      | inr moved ↦ rw moved (
          let left = IsOwned-left w p h e in
          let place = place_of p destination in
          record {
            owned = insert_tab-All (IsOwned w) place p.tab (p.before ++ p.after) left.0 left.1;
            showing = ground (
              arith,
              has_view-insert_kept w.view place p.tab (p.before ++ p.after),
              view_left w p h e,
            );
            limit = h.limit;
          })
    ]

-- Windows between which a tab may move are of one kind.
same_kind :
    (source target : WindowState)
    → refuses source target ≡ false
    → source.private_mode ≡ target.private_mode
unfolding refuses
same_kind source target h = ground arith

none_or_view :
    (v : Option ℕ) (b : Bool) (ts : List TabState)
    → (b || has_view v ts) ≡ true
    → (b || has_view (if length ts == 0 then none else v) ts) ≡ true
none_or_view v b [] h = ground arith
none_or_view v b (t ∷ ts) h = ground arith

transfer-AllShaped :
    (p : TabPosition) (source target : WindowState) (destination : ℕ) (a : ApplicationState)
    → IsShaped source
    → IsShaped target
    → source.tabs ≡ p.before ++ p.tab ∷ p.after
    → source.private_mode ≡ target.private_mode
    → AllShaped a
    → AllShaped (transfer p source target destination a)
unfolding transfer receive give_away
transfer-AllShaped p source target destination a hs ht e same all =
    let left = IsOwned-left source p hs e in
    let arrived : TabState = record p.tab { window = target.id } in
    after_removal-AllShaped (length p.before) (is_some_of source.view p.tab.view) _ _ left.1
      hs.limit (none_or_view source.view _ (p.before ++ p.after) (view_left source p hs e))
      (select_tab-AllShaped arrived _ a
        (insert_tab-All (IsOwned target) _ arrived target.tabs (refl, left.0.1 ∙ same) ht.owned)
        ht.limit (has_view-insert_tab _ arrived target.tabs) all)

pub move-AllShaped :
    (tab target destination : ℕ) (a : ApplicationState)
    → AllShaped a
    → AllShaped (move_tab_to_window tab target destination a).0
unfolding move_tab_to_window
move-AllShaped tab target destination a all = elim (Option-cases (find_window target a.windows)) [
  | inl lost ↦ rw lost all
  | inr (t, found) ↦ rw found (
      pointed_intro (λ (r : ApplicationState × Bool). AllShaped r.0) (find_tab tab a.windows) a
        (a, false) (move_between a t destination) all all
        (λ p w h e. between t p w h e (find_window-All IsShaped target a.windows t all found)))
]
  where
    between :
        (t : WindowState) (p : TabPosition) (w : WindowState)
        → IsShaped w
        → w.tabs ≡ p.before ++ p.tab ∷ p.after
        → IsShaped t
        → AllShaped (move_between a t destination p w).0
    between t p w h e ht = elim (Bool-cases (refuses w t)) [
      | inl no_way ↦ rw no_way all
      | inr way ↦ elim (Bool-cases (w.id == t.id)) [
        | inl within ↦
            rw (way, within)
              (set_window-AllShaped (reorder p destination w) a
                (reorder-IsShaped p destination w h e) all)
        | inr apart ↦
            rw (way, apart) (transfer-AllShaped p w t destination a h ht e (same_kind w t way) all)
      ]
    ]
