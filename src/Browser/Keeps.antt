-- ===== src/Browser/Keeps.antt =====
-- Every operation of browser_model.cpp keeps the invariant of the tab model.
use vant.Prelude.{
  ℕ, ◌-◌, ◌≡◌, refl, sym, ap, subst, ◌∙◌, inl, inr, Bool, true, false, List, [], ◌∷◌, ◌++◌, Option,
  arith, ltb, if◌then◌else◌, Bytes, length, take, drop, Option-cases, Bool-cases, All, All-append,
  All-left, All-right, take-append-drop, length-append,
}
use vant.Browser.{
  Tab, BrowserModel, Position, FocusTarget, new_tab, find, find_if, activate, close_tab,
  reopen_closed, duplicate_tab, move_tab, discard_to_limit, pop_back,
}
use vant.Browser.Counts.{count_id, count_id-insert, Splits, find_if-Splits}
use vant.Browser.Closed.{IsClosed, length-remember, remember-All, neighbour_sound, pop_back-some}
use vant.Browser.Discard.{Pointwise, Discards, discard_to_limit_lem}
use vant.Browser.Invariant.{
  IsLive, Inv, HasIds, push_back-Inv, replace-Inv, count_id-replace, All-replace, count_id-Splits,
  erase-Inv,
}

pub new_tab-Inv :
    (m : BrowserModel) (uri : Bytes) (activate_tab : Bool)
    → Inv m
    → HasIds m
    → Inv (new_tab m uri activate_tab).0
unfolding new_tab
new_tab-Inv m uri true v room = push_back-Inv m _ _ v room refl refl (inl refl)
new_tab-Inv m uri false v room = push_back-Inv m _ _ v room refl refl (inr refl)

pub activate-Inv : (m : BrowserModel) (id : ℕ) → Inv m → Inv (activate m id).0
unfolding activate
activate-Inv m id v = elim (Option-cases (find_if id m.tabs)) [
  | inl miss ↦ rw (miss, activate) v
  | inr (p, found) ↦
      let s = find_if-Splits id m.tabs p found in
      let u = record p.tab { discarded = false } in
      let alive = subst (All IsLive) s.whole v.all_live in
      let same = λ (i : ℕ).
        count_id-replace i p.before p.after p.tab u refl ∙ ap (count_id i) (sym s.whole) in
      rw (found, activate)
        (replace-Inv m _ _ FocusTarget.page v same
          (All-replace p.before p.after p.tab u (All-right IsLive p.before _ alive).0 alive)
          (λ a h. ground (arith, same a, count_id-Splits a id m.tabs p s, v.unique a)))
]

-- The tabs with one of them put elsewhere.
reinsert-All :
    (n : ℕ) (before after : List Tab) (t : Tab)
    → All IsLive (before ++ (t ∷ after))
    → All IsLive (take n (before ++ after) ++ (t ∷ drop n (before ++ after)))
reinsert-All n before after t h =
    let rest = before ++ after in
    let others =
      All-append IsLive before after (All-left IsLive before _ h) (All-right IsLive before _ h).1 in
    let cut = subst (All IsLive) (sym (take-append-drop n rest)) others in
    All-append IsLive (take n rest) (t ∷ drop n rest) (All-left IsLive (take n rest) _ cut)
      ((All-right IsLive before _ h).0, All-right IsLive (take n rest) _ cut)

insert_same :
    (i n id : ℕ) (ts : List Tab) (p : Position)
    → Splits id ts p
    → count_id i (take n (p.before ++ p.after) ++ (p.tab ∷ drop n (p.before ++ p.after)))
      ≡ count_id i ts
insert_same i n id ts p s =
    omega (arith, count_id-insert i n p.tab (p.before ++ p.after), count_id-Splits i id ts p s)

pub move_tab-Inv :
    (m : BrowserModel) (id destination : ℕ) → Inv m → Inv (move_tab m id destination).0
unfolding move_tab
move_tab-Inv m id destination v = elim (Option-cases (find_if id m.tabs)) [
  | inl miss ↦ rw (miss, move_tab) v
  | inr (p, found) ↦ elim (Bool-cases (ltb (length m.tabs) destination)) [
    | inl past ↦ rw (found, move_tab, past) v
    | inr fits ↦
        let s = find_if-Splits id m.tabs p found in
        let n = if ltb (length p.before) destination then destination - 1 else destination in
        let same = λ (i : ℕ). insert_same i n id m.tabs p s in
        rw (found, move_tab, fits)
          (replace-Inv m _ m.active m.focus v same
            (reinsert-All n p.before p.after p.tab (subst (All IsLive) s.whole v.all_live))
            (λ a e. same a ∙ v.shown a e))
  ]
]

pub close_tab-Inv : (m : BrowserModel) (id : ℕ) → Inv m → Inv (close_tab m id).0
unfolding close_tab
close_tab-Inv m id v = elim (Option-cases (find_if id m.tabs)) [
  | inl miss ↦ rw (miss, close_tab) v
  | inr (p, found) ↦
      let s = find_if-Splits id m.tabs p found in
      rw (found, close_tab)
        (erase-Inv m id p _ _ v s (length-remember m.closed_limit m.closed_tabs p.tab v.bounded)
          (remember-All m.closed_limit m.closed_tabs p.tab v.all_closed)
          λ a h. ground (
            arith,
            neighbour_sound (p.before ++ p.after) (length p.before) a,
            count_id-Splits a id m.tabs p s,
            v.shown a,
            s.hit,
          ))
]

-- `closed_.pop_back()`.
drop_closed-Inv :
    (m : BrowserModel) (kept : List Tab) (t : Tab)
    → Inv m
    → m.closed_tabs ≡ kept ++ (t ∷ [])
    → Inv (record m { closed_tabs = kept })
drop_closed-Inv m kept t v whole = record {
  positive = v.positive;
  fresh = v.fresh;
  no_zero = v.no_zero;
  unique = v.unique;
  shown = v.shown;
  bounded = omega (arith, v.bounded, ap length whole, length-append kept (t ∷ []));
  all_live = v.all_live;
  all_closed = All-left IsClosed kept (t ∷ []) (subst (All IsClosed) whole v.all_closed);
}

pub reopen_closed-Inv : (m : BrowserModel) → Inv m → HasIds m → Inv (reopen_closed m).0
unfolding reopen_closed
reopen_closed-Inv m v room = elim (Option-cases (pop_back m.closed_tabs)) [
  | inl miss ↦ rw (miss, reopen_closed) v
  | inr ((kept, t), found) ↦
      rw (found, reopen_closed)
        (let whole = pop_back-some m.closed_tabs kept t found in
          let w = drop_closed-Inv m kept t v whole in
          push_back-Inv (record m { closed_tabs = kept }) _ _ w room refl refl (inl refl))
]

pub duplicate_tab-Inv : (m : BrowserModel) (id : ℕ) → Inv m → HasIds m → Inv (duplicate_tab m id).0
unfolding duplicate_tab
duplicate_tab-Inv m id v room = elim (Option-cases (find m id)) [
  | inl miss ↦ rw (miss, duplicate_tab) v
  | inr (t, found) ↦ rw (found, duplicate_tab) (new_tab-Inv m t.uri true v room)
]

Pointwise-count_id :
    (active : Option ℕ) (i : ℕ) (ts us : List Tab)
    → Pointwise (Discards active) ts us
    → count_id i us ≡ count_id i ts
Pointwise-count_id active i [] [] h = refl
Pointwise-count_id active i [] (u ∷ us) h = absurd h
Pointwise-count_id active i (t ∷ ts) [] h = absurd h
Pointwise-count_id active i (t ∷ ts) (u ∷ us) (h, hs) =
    ground (arith, Pointwise-count_id active i ts us hs)

Pointwise-All :
    (active : Option ℕ) (ts us : List Tab)
    → Pointwise (Discards active) ts us
    → All IsLive ts
    → All IsLive us
Pointwise-All active [] [] h v = tt
Pointwise-All active [] (u ∷ us) h v = absurd h
Pointwise-All active (t ∷ ts) [] h v = tt
Pointwise-All active (t ∷ ts) (u ∷ us) (h, hs) (v, vs) =
    (ground arith, Pointwise-All active ts us hs vs)

pub discard_to_limit-Inv : (m : BrowserModel) (limit : ℕ) → Inv m → Inv (discard_to_limit m limit).0
unfolding discard_to_limit
discard_to_limit-Inv m limit v =
    let h = (discard_to_limit_lem m limit).0 in
    let same = λ (i : ℕ). Pointwise-count_id m.active i m.tabs _ h in
    replace-Inv m _ m.active m.focus v same (Pointwise-All m.active m.tabs _ h v.all_live)
      (λ a e. same a ∙ v.shown a e)
