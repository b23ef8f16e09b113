-- ===== src/Browser/Invariant.antt =====
-- The invariant of the tab model, and that every operation of browser_model.cpp keeps it.
use vant.Prelude.{
  ℕ, ◌+◌, ◌^◌, ◌≤◌, ◌<◌, ◌≡◌, ap, subst, ◌⊎◌, List, [], ◌∷◌, ◌++◌, Option, some, arith, ◌==◌,
  if◌then◌else◌, Bytes, length, All, All-append, All-left, All-right,
}
use vant.Browser.{Tab, live, BrowserModel, Position, FocusTarget, create, bump_id}
use vant.Browser.Counts.{count_id, count_id-append, Splits}
use vant.Browser.Closed.{IsClosed}

abbrev pub IsLive : Tab → Type 0
IsLive t = t.lifecycle ≡ live

pub record Inv (m : BrowserModel) : Type 0 where
  pub positive : 0 < m.next_id
  pub fresh : (i : ℕ) → m.next_id ≤ i → count_id i m.tabs ≡ 0
  pub no_zero : count_id 0 m.tabs ≡ 0
  pub unique : (i : ℕ) → count_id i m.tabs ≤ 1
  pub shown : (a : ℕ) → m.active ≡ some a → count_id a m.tabs ≡ 1
  pub bounded : length m.closed_tabs ≤ m.closed_limit
  pub all_live : All IsLive m.tabs
  pub all_closed : All IsClosed m.closed_tabs

-- The id counter has not reached the end of its 64 bits.
abbrev pub HasIds : BrowserModel → Type 0
HasIds m = m.next_id + 1 < 2 ^ 64

pub create-Inv :
    (workspace : Bytes) (limit : ℕ) (m : BrowserModel) → create workspace limit ≡ some m → Inv m
unfolding create
create-Inv [] limit m e = cc
create-Inv (c ∷ cs) limit m e = grind arith

-- A tab pushed at the back under the next id.
pub push_back-Inv :
    (m : BrowserModel) (t : Tab) (active : Option ℕ)
    → Inv m
    → HasIds m
    → t.id ≡ m.next_id
    → t.lifecycle ≡ live
    → (active ≡ some m.next_id) ⊎ (active ≡ m.active)
    → Inv (record m { next_id = bump_id m.next_id; tabs = m.tabs ++ (t ∷ []); active = active })
push_back-Inv m t active v room e l a = record {
  positive = omega (arith, v.positive);
  fresh = λ i h. ground (arith, count_id-append i m.tabs (t ∷ []), v.fresh i);
  no_zero = ground (arith, count_id-append 0 m.tabs (t ∷ []), v.no_zero, v.positive);
  unique = λ i. ground (arith, count_id-append i m.tabs (t ∷ []), v.fresh i, v.unique i);
  shown = λ b h. ground (arith, count_id-append b m.tabs (t ∷ []), v.fresh b, v.shown b);
  bounded = v.bounded;
  all_live = All-append IsLive m.tabs (t ∷ []) v.all_live (l, tt);
  all_closed = v.all_closed;
}

-- A vector with the counts and lifecycles of the old one keeps the invariant.
pub replace-Inv :
    (m : BrowserModel) (ts : List Tab) (active : Option ℕ) (focus : FocusTarget)
    → Inv m
    → ((i : ℕ) → count_id i ts ≡ count_id i m.tabs)
    → All IsLive ts
    → ((a : ℕ) → active ≡ some a → count_id a ts ≡ 1)
    → Inv (record m { tabs = ts; active = active; focus = focus })
replace-Inv m ts active focus v same alive shown = record {
  positive = v.positive;
  fresh = λ i h. omega (arith, same i, v.fresh i h);
  no_zero = omega (arith, same 0, v.no_zero);
  unique = λ i. omega (arith, same i, v.unique i);
  shown = shown;
  bounded = v.bounded;
  all_live = alive;
  all_closed = v.all_closed;
}

-- The tab at a position, with another tab of the same id in its place.
pub count_id-replace :
    (i : ℕ) (before after : List Tab) (t u : Tab)
    → u.id ≡ t.id
    → count_id i (before ++ (u ∷ after)) ≡ count_id i (before ++ (t ∷ after))
count_id-replace i before after t u e =
    ground (arith, count_id-append i before (u ∷ after), count_id-append i before (t ∷ after))

pub All-replace :
    (before after : List Tab) (t u : Tab)
    → IsLive u
    → All IsLive (before ++ (t ∷ after))
    → All IsLive (before ++ (u ∷ after))
All-replace before after t u h v =
    All-append IsLive before (u ∷ after) (All-left IsLive before (t ∷ after) v)
      (h, (All-right IsLive before (t ∷ after) v).1)

pub count_id-Splits :
    (i id : ℕ) (ts : List Tab) (p : Position)
    → Splits id ts p
    → count_id i ts ≡ count_id i (p.before ++ p.after) + (if p.tab.id == i then 1 else 0)
count_id-Splits i id ts p s = omega (
  arith,
  ap (count_id i) s.whole,
  count_id-append i p.before (p.tab ∷ p.after),
  count_id-append i p.before p.after,
)

-- The vector without the tab of a position.
pub erase-Inv :
    (m : BrowserModel) (id : ℕ) (p : Position) (closed_tabs : List Tab) (active : Option ℕ)
    → Inv m
    → Splits id m.tabs p
    → length closed_tabs ≤ m.closed_limit
    → All IsClosed closed_tabs
    → ((a : ℕ) → active ≡ some a → 0 < count_id a (p.before ++ p.after))
    → Inv (record m { tabs = p.before ++ p.after; closed_tabs = closed_tabs; active = active })
erase-Inv m id p closed_tabs active v s short all_closed shown = record {
  positive = v.positive;
  fresh = λ i h. omega (arith, count_id-Splits i id m.tabs p s, v.fresh i h);
  no_zero = omega (arith, count_id-Splits 0 id m.tabs p s, v.no_zero);
  unique = λ i. omega (arith, count_id-Splits i id m.tabs p s, v.unique i);
  shown = λ a h. omega (arith, count_id-Splits a id m.tabs p s, v.unique a, shown a h);
  bounded = short;
  all_live =
      let alive = subst (All IsLive) s.whole v.all_live in
      All-append IsLive p.before p.after (All-left IsLive p.before _ alive)
        (All-right IsLive p.before _ alive).1;
  all_closed = all_closed;
}
