-- ===== src/Browser/Move.antt =====
-- What `move_tab` of browser_model.cpp does to the order of the tabs.
use mathlib.Core.List.{Perm, perm_middle}
use mathlib.Core.List.Perm
use vant.Prelude.{
  ℕ, ◌+◌, ◌-◌, ◌≤◌, ◌<◌, zero, suc, ◌≡◌, refl, sym, ap, subst, ◌⊎◌, true, false, List, [], ◌∷◌,
  ◌++◌, none, some, arith, ltb, if◌then◌else◌, length, take, drop, get_elem?, take-append-drop,
  length-append,
}
use native.Mathlib.Numerals.{add-one}
use vant.Browser.{Tab, BrowserModel, Position, find_if, move_tab}
use vant.Browser.Counts.{find_if-Splits}

insert-perm :
    (n : ℕ) (t : Tab) (before after : List Tab)
    → let rest = before ++ after in Perm (take n rest ++ (t ∷ drop n rest)) (before ++ (t ∷ after))
insert-perm n t before after =
    let rest = before ++ after in
    Perm.trans (perm_middle (take n rest) (drop n rest))
      (rw take-append-drop (Perm.symm (perm_middle before after)))

-- The vector `rest` with `t` put in at `n`.
take_insert :
    (n : ℕ) (t : Tab) (rest : List Tab)
    → n ≤ length rest
    → let out = take n rest ++ (t ∷ drop n rest) in
      (get_elem? out n ≡ some t) × (take n out ≡ take n rest) × (drop (n + 1) out ≡ drop n rest)
take_insert zero t rest h = (refl, refl, refl)
take_insert (suc n) t [] h = absurd (omega arith)
take_insert (suc n) t (x ∷ rest) h =
    let (at, front, back) = take_insert n t rest (omega arith) in
    (at, ap (◌∷◌ x) front, rw add-one (rw add-one at back))

abbrev pub target : ℕ → ℕ → ℕ
target index destination = if ltb index destination then destination - 1 else destination

-- For a known id and a destination within the vector, counted before the removal, `move_tab`
-- succeeds: the tabs are permuted, the tab of that id stands at the destination (one earlier where
-- its own removal moved the place), and before and behind it stand the other tabs in their order.
pub move_tab_lem :
    (m : BrowserModel) (id destination : ℕ) (p : Position)
    → find_if id m.tabs ≡ some p
    → destination ≤ length m.tabs
    → let out = move_tab m id destination in
      let index = target (length p.before) destination in
      let rest = p.before ++ p.after in
      (out.1 ≡ true)
      × Perm out.0.tabs m.tabs
      × (get_elem? out.0.tabs index ≡ some p.tab)
      × (take index out.0.tabs ≡ take index rest)
      × (drop (index + 1) out.0.tabs ≡ drop index rest)
unfolding move_tab
move_tab_lem m id destination p found h =
    let s = find_if-Splits id m.tabs p found in
    let index = target (length p.before) destination in
    let rest = p.before ++ p.after in
    let fits : ltb (length m.tabs) destination ≡ false = ground arith in
    let within : index ≤ length rest = ground (
      arith,
      ap length s.whole,
      length-append p.before (p.tab ∷ p.after),
      length-append p.before p.after,
    ) in
    let (at, front, back) = take_insert index p.tab rest within in
    rw (found, move_tab, fits)
      (
        refl,
        subst (Perm _) (sym s.whole) (insert-perm index p.tab p.before p.after),
        at,
        front,
        back,
      )

-- An unknown id and a destination past the end are refused, and the model is left as it was.
pub move_tab-refused :
    (m : BrowserModel) (id destination : ℕ)
    → (find_if id m.tabs ≡ none) ⊎ (length m.tabs < destination)
    → move_tab m id destination ≡ (m, false)
unfolding move_tab
move_tab-refused m id destination h = ground arith
