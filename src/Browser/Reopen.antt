-- ===== src/Browser/Reopen.antt =====
-- `close_tab` followed by `reopen_closed`, browser_model.cpp.
use vant.Prelude.{
  ℕ, ◌<◌, ◌≡◌, refl, inl, inr, true, false, List, [], ◌∷◌, ◌++◌, Option, some, arith, ltb,
  if◌then◌else◌, Bool-cases, length, drop, length-append,
}
use vant.Browser.{
  Tab, live, closed, BrowserModel, Position, find_if, bump_id, is_active, neighbour, remember,
  pop_back, close_tab, reopen_closed,
}

pop_back-concat : (ts : List Tab) (t : Tab) → pop_back (ts ++ (t ∷ [])) ≡ some (ts, t)
unfolding pop_back
pop_back-concat [] t = refl
pop_back-concat (x ∷ ts) t = rw (pop_back-concat ts t, pop_back)

drop-concat :
    (ts : List Tab) (t : Tab) → 0 < length ts → drop 1 (ts ++ (t ∷ [])) ≡ drop 1 ts ++ (t ∷ [])
drop-concat [] t h = absurd (omega arith)
drop-concat (x ∷ ts) t h = refl

-- With room for one closed tab, the tab closed last is at the back.
pop_back-remember :
    (limit : ℕ) (kept : List Tab) (t : Tab)
    → 0 < limit
    → (older : List Tab) × (pop_back (remember limit kept t)
        ≡ some (older, record t { lifecycle = closed }))
unfolding remember
pop_back-remember limit kept t h =
    let u = record t { lifecycle = closed } in
    let on : ltb 0 limit ≡ true = ground arith in
    elim (Bool-cases (ltb limit (length (kept ++ (u ∷ []))))) [
      | inl full ↦
          let some_kept : 0 < length kept = ground (arith, length-append kept (u ∷ [])) in
          (
            drop 1 kept,
            rw (on, full, drop-concat kept u some_kept) (pop_back-concat (drop 1 kept) u),
          )
      | inr room ↦ (kept, rw (on, room) (pop_back-concat kept u))
    ]

close_tab-found :
    (m : BrowserModel) (id : ℕ) (p : Position)
    → find_if id m.tabs ≡ some p
    → (active : Option ℕ) × ((close_tab m id).0 ≡ record m {
      closed_tabs = remember m.closed_limit m.closed_tabs p.tab;
      tabs = p.before ++ p.after;
      active = active;
    })
unfolding close_tab
close_tab-found m id p found = (
  if is_active m.active id then neighbour (p.before ++ p.after) (length p.before) else m.active,
  rw (found, close_tab),
)

reopen_closed-found :
    (m : BrowserModel) (kept : List Tab) (t : Tab)
    → pop_back m.closed_tabs ≡ some (kept, t)
    → reopen_closed m ≡ (
      record m {
        next_id = bump_id m.next_id;
        closed_tabs = kept;
        tabs = m.tabs ++ (record t { id = m.next_id; loading = false; lifecycle = live } ∷ []);
        active = some m.next_id;
      },
      some m.next_id,
    )
unfolding reopen_closed
reopen_closed-found m kept t found = rw (found, reopen_closed)

-- Where closed tabs are kept at all, reopening right after closing a tab brings that tab back, at
-- the end of the tabs that are left and as the active one, under the next id, live and not loading,
-- and with all else as it was when it was closed.
pub reopen-close_tab :
    (m : BrowserModel) (id : ℕ) (p : Position)
    → find_if id m.tabs ≡ some p
    → 0 < m.closed_limit
    → let out = reopen_closed (close_tab m id).0 in
      (out.1 ≡ some m.next_id)
      × (out.0.active ≡ some m.next_id)
      × (out.0.tabs
          ≡ (p.before ++ p.after)
            ++ (record p.tab { id = m.next_id; loading = false; lifecycle = live } ∷ []))
reopen-close_tab m id p found h =
    let (older, back) = pop_back-remember m.closed_limit m.closed_tabs p.tab h in
    let (active, shut) = close_tab-found m id p found in
    let left : BrowserModel = record m {
      closed_tabs = remember m.closed_limit m.closed_tabs p.tab;
      tabs = p.before ++ p.after;
      active = active;
    } in
    rw (shut, reopen_closed-found left older (record p.tab { lifecycle = closed }) back)
      (refl, refl, refl)
