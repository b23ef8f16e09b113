-- ===== src/Agent/Places.antt =====
-- src/native_app.cpp: the tabs and windows that agents name, in windows that are well shaped.
use vant.Prelude.{
  ℕ, ◌≡◌, ◌∙◌, ap, subst, inl, inr, Bool, not, ◌&&◌, List, [], ◌∷◌, ◌++◌, some, arith, ◌==◌, length,
  length-append, All, All-append, All-left, All-right, Bool-cases, Option-cases,
}
use vant.Windows.{TabState, WindowState, is_some_of, find_position}
use vant.Windows.Shape.{IsOwned, IsShaped, has_view, has_view-append, find_position-splits}
use vant.Windows.Keeps.{IsOwned-left}
use vant.Pages.{placed_tab}
use vant.Agent.{
  TabPlace, placed_in, shows_view, open_window, agent_window, active_place, place_of, agent_tab,
}

-- The place is one of a window that is well shaped.
pub record HasTab (p : TabPlace) : Type 0 where
  pub shaped : IsShaped p.window
  pub splits : p.window.tabs ≡ p.position.before ++ p.position.tab ∷ p.position.after

placed_in-HasTab :
    (w : WindowState) (test : TabState → Bool) (p : TabPlace)
    → IsShaped w
    → placed_in w (find_position test w.tabs) ≡ some p
    → HasTab p
placed_in-HasTab w test p h e = elim (Option-cases (find_position test w.tabs)) [
  | inl miss ↦ absurd (ground (arith, rw miss at e))
  | inr (q, found) ↦
      let same : record { position = q; window = w } ≡ p = ground (arith, rw found at e) in
      subst HasTab same
        (record { shaped = h; splits = (find_position-splits test w.tabs q found).0 })
]

active_place-HasTab :
    (ws : List WindowState) (p : TabPlace) → All IsShaped ws → active_place ws ≡ some p → HasTab p
unfolding active_place
active_place-HasTab [] p all e = absurd (ground (arith, e))
active_place-HasTab (w ∷ ws) p all e = elim (Bool-cases (not w.closed && shows_view w)) [
  | inl here ↦ placed_in-HasTab w (λ t. is_some_of w.view t.view) p all.0 (rw here at e)
  | inr later ↦ active_place-HasTab ws p all.1 (rw later at e)
]

place_of-HasTab :
    (id : ℕ) (ws : List WindowState) (p : TabPlace)
    → All IsShaped ws
    → place_of id ws ≡ some p
    → HasTab p
unfolding place_of
place_of-HasTab id [] p all e = absurd (ground (arith, e))
place_of-HasTab id (w ∷ ws) p all e =
    elim (Option-cases (placed_in w (find_position (λ t. t.id == id) w.tabs))) [
      | inl miss ↦ place_of-HasTab id ws p all.1 (rw (miss, place_of) at e)
      | inr (q, found) ↦
          placed_in-HasTab w (λ t. t.id == id) p all.0 (found ∙ rw (found, place_of) at e)
    ]

pub agent_tab-HasTab :
    (id : ℕ) (ws : List WindowState) (p : TabPlace)
    → All IsShaped ws
    → agent_tab id ws ≡ some p
    → HasTab p
unfolding agent_tab
agent_tab-HasTab id ws p all e = elim (Bool-cases (id == 0)) [
  | inl none_given ↦ active_place-HasTab ws p all (rw none_given at e)
  | inr given ↦ place_of-HasTab id ws p all (rw given at e)
]

open_window-IsShaped :
    (id : ℕ) (ws : List WindowState) (w : WindowState)
    → All IsShaped ws
    → open_window id ws ≡ some w
    → IsShaped w
unfolding open_window
open_window-IsShaped id [] w all e = absurd (ground (arith, e))
open_window-IsShaped id (x ∷ ws) w all e = elim (Bool-cases (x.id == id && not x.closed)) [
  | inl here ↦ let same : x ≡ w = ground (arith, rw here at e) in subst IsShaped same all.0
  | inr later ↦ open_window-IsShaped id ws w all.1 (rw later at e)
]

pub agent_window-IsShaped :
    (id : ℕ) (ws : List WindowState) (w : WindowState)
    → All IsShaped ws
    → agent_window id ws ≡ some w
    → IsShaped w
unfolding agent_window
agent_window-IsShaped id [] w all e = absurd (ground (arith, e))
agent_window-IsShaped id (x ∷ ws) w all e = elim (Bool-cases (id == 0)) [
  | inl first ↦ let same : x ≡ w = ground (arith, rw first at e) in subst IsShaped same all.0
  | inr given ↦ open_window-IsShaped id (x ∷ ws) w all (rw given at e)
]

-- Another tab of the same view in the place of one.
pub placed_tab-IsShaped :
    (p : TabPlace) (t : TabState)
    → HasTab p
    → IsOwned p.window t
    → t.view ≡ p.position.tab.view
    → IsShaped (placed_tab p.position t p.window)
placed_tab-IsShaped p t h owned view =
    let q = p.position in
    let left = IsOwned-left p.window q h.shaped h.splits in
    record {
      owned =
          All-append (IsOwned p.window) q.before (t ∷ q.after)
            (All-left (IsOwned p.window) q.before q.after left.1)
            (owned, All-right (IsOwned p.window) q.before q.after left.1);
      showing = ground (
        arith,
        h.shaped.showing,
        view,
        ap (has_view p.window.view) h.splits,
        ap (λ (ts : List TabState). length ts) h.splits,
        has_view-append p.window.view q.before (q.tab ∷ q.after),
        has_view-append p.window.view q.before (t ∷ q.after),
        length-append q.before (q.tab ∷ q.after),
        length-append q.before (t ∷ q.after),
      );
      limit = h.shaped.limit;
    }
