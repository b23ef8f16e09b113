-- ===== src/Windows/Shape.antt =====
-- What holds of every window of native_app.cpp, and the lists of tabs it speaks of.
use vant.Prelude.{
  ℕ, zero, suc, ◌≤◌, ◌<◌, ◌≡◌, refl, ap, subst, inl, inr, Bool, true, false, ◌||◌, List, [], ◌∷◌,
  ◌++◌, Option, none, some, arith, ◌==◌, length, get_elem?, All, Bool-cases, Option-cases,
}
use vant.Windows.{
  TabState, WindowState, ApplicationState, is_some_of, TabPosition, find_position, find_window,
  update_window, set_window,
}
use vant.Windows.Tabs.{pointed, closed_tab_limit}

-- The tab points to its window, and has that window's kind of session.
abbrev pub IsOwned : WindowState → TabState → Type 0
IsOwned w t = (t.window ≡ w.id) × (t.private_session ≡ w.private_mode)

abbrev pub has_view : Option ℕ → List TabState → Bool
has_view v [] = false
has_view v (t ∷ ts) = is_some_of v t.view || has_view v ts

-- The window's tabs are its own, the active view is one of theirs as long as there are tabs, and no
-- more than 25 closed addresses are kept.
pub record IsShaped (w : WindowState) : Type 0 where
  pub owned : All (IsOwned w) w.tabs
  pub showing : (has_view w.view w.tabs || length w.tabs == 0) ≡ true
  pub limit : length w.closed_tab_uris ≤ closed_tab_limit

abbrev pub AllShaped : ApplicationState → Type 0
AllShaped a = All IsShaped a.windows

pub update_window-All :
    (P : WindowState → Type 0) (id : ℕ) (w : WindowState) (ws : List WindowState)
    → P w
    → All P ws
    → All P (update_window id (λ old. w) ws)
unfolding update_window
update_window-All P id w [] h all = tt
update_window-All P id w (x ∷ ws) h all = elim (Bool-cases (x.id == id)) [
  | inl hit ↦ rw hit (h, update_window-All P id w ws h all.1)
  | inr miss ↦ rw miss (all.0, update_window-All P id w ws h all.1)
]

pub set_window-AllShaped :
    (w : WindowState) (a : ApplicationState) → IsShaped w → AllShaped a → AllShaped (set_window w a)
set_window-AllShaped w a h all = update_window-All IsShaped w.id w a.windows h all

pub find_window-All :
    (P : WindowState → Type 0) (id : ℕ) (ws : List WindowState) (w : WindowState)
    → All P ws
    → find_window id ws ≡ some w
    → P w
unfolding find_window
find_window-All P id [] w all e = absurd (no-none w e)
  where
    no-none : (w : WindowState) → none ≡ some w → ⊥
    no-none w e = cc
find_window-All P id (x ∷ ws) w all e = elim (Bool-cases (x.id == id)) [
  | inl hit ↦ let same : x ≡ w = ground arith in subst P same all.0
  | inr miss ↦
      let later : find_window id ws ≡ some w = ground arith in find_window-All P id ws w all.1 later
]

-- A position splits the list.
pub find_position-splits :
    (test : TabState → Bool) (ts : List TabState) (p : TabPosition)
    → find_position test ts ≡ some p
    → (ts ≡ p.before ++ p.tab ∷ p.after) × (test p.tab ≡ true)
unfolding find_position
find_position-splits test [] p e = cc
find_position-splits test (t ∷ ts) p e = elim (Bool-cases (test t)) [
  | inl hit ↦
      let here : record { before = []; tab = t; after = ts } ≡ p = ground arith in
      subst (λ (q : TabPosition). (t ∷ ts ≡ q.before ++ q.tab ∷ q.after) × (test q.tab ≡ true)) here
        (refl, hit)
  | inr miss ↦ elim (Option-cases (find_position test ts)) [
    | inl nothing ↦ ground arith
    | inr (q, found) ↦
        let later : record q { before = t ∷ q.before } ≡ p = ground arith in
        let rest = find_position-splits test ts q found in
        subst (λ (q : TabPosition). (t ∷ ts ≡ q.before ++ q.tab ∷ q.after) × (test q.tab ≡ true))
          later (ap (λ xs. t ∷ xs) rest.0, rest.1)
  ]
]

-- What holds where a pointer points to nothing, and for every tab of a well-shaped window, holds of
-- what is done with the pointer.
pub pointed_intro :
    {S : Type 0} (P : S → Type 0) (t : Option TabState) (a : ApplicationState) (missing : S)
    (k : TabPosition → WindowState → S)
    → AllShaped a
    → P missing
    → ((p : TabPosition) (w : WindowState)
        → IsShaped w
        → w.tabs ≡ p.before ++ p.tab ∷ p.after
        → P (k p w))
    → P (pointed t a missing k)
pointed_intro P none a missing k all m h = m
pointed_intro P (some t) a missing k all m h =
    elim (Option-cases (find_window t.window a.windows)) [
      | inl lost ↦ rw lost m
      | inr (w, found) ↦ elim (Option-cases (find_position (λ s. s.id == t.id) w.tabs)) [
        | inl gone ↦ rw (found, gone) m
        | inr (p, there) ↦
            rw (found, there)
              (h p w (find_window-All IsShaped t.window a.windows w all found)
                (find_position-splits (λ s. s.id == t.id) w.tabs p there).0)
      ]
    ]

pub has_view-append :
    (v : Option ℕ) (xs ys : List TabState)
    → has_view v (xs ++ ys) ≡ (has_view v xs || has_view v ys)
has_view-append v [] ys = refl
has_view-append v (x ∷ xs) ys = ground (arith, has_view-append v xs ys)

pub has_view-get_elem :
    (ts : List TabState) (i : ℕ)
    → i < length ts
    → (t : TabState) × (get_elem? ts i ≡ some t) × (has_view (some t.view) ts ≡ true)
has_view-get_elem [] i h = elim h [ ]
has_view-get_elem (t ∷ ts) zero h = (t, refl, ground arith)
has_view-get_elem (t ∷ ts) (suc i) h =
    let (s, e, v) = has_view-get_elem ts i (omega arith) in (s, e, ground arith)
