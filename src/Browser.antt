-- ===== src/Browser.antt =====
-- src/browser_model.h and src/browser_model.cpp: the tab model. A vector is a list, its back is the
-- list's end; an iterator found by `std::find_if` is a `Position`, the vector split at it.
-- `next_id` is a 64-bit counter and wraps.
pub mod Counts
pub mod Closed
pub mod Invariant
pub mod Keeps
pub mod History
pub mod Discard
pub mod Move
pub mod Reopen
pub mod Shortcuts
pub mod Tests
use vant.Prelude.{
  ℕ, ◌+◌, ◌-◌, ◌%◌, ◌^◌, min, Bool, true, false, not, ◌&&◌, List, [], ◌∷◌, ◌++◌, Option, none, some,
  length, take, drop, get_elem?, ltb, leb, ◌==◌, if◌then◌else◌, Bytes, codes,
}

pub data TabLifecycle : Type 0 where
  live closed : TabLifecycle

pub data FocusTarget : Type 0 where
  page address command_palette : FocusTarget

pub record Tab : Type 0 where
  pub id : ℕ
  pub uri : Bytes
  pub title : Bytes
  pub loading : Bool
  pub discarded : Bool
  pub private_mode : Bool
  pub audible : Bool
  pub lifecycle : TabLifecycle

pub record BrowserModel : Type 0 where
  pub workspace : Bytes
  pub closed_limit : ℕ
  pub next_id : ℕ
  pub tabs : List Tab
  pub closed_tabs : List Tab
  pub active : Option ℕ
  pub focus : FocusTarget

-- `none` is the exception `std::invalid_argument`.
unfoldable pub create : Bytes → ℕ → Option BrowserModel
create [] closed_limit = none
create (c ∷ cs) closed_limit = some (record {
  workspace = c ∷ cs;
  closed_limit = closed_limit;
  next_id = 1;
  tabs = [];
  closed_tabs = [];
  active = none;
  focus = page;
})

-- `next_id_++` on a `std::uint64_t`.
abbrev pub bump_id : ℕ → ℕ
bump_id n = (n + 1) % 2 ^ 64

unfoldable pub new_tab : BrowserModel → Bytes → Bool → BrowserModel × ℕ
new_tab m uri activate_tab = (
  record m {
    next_id = bump_id m.next_id;
    tabs =
        m.tabs
        ++ (record {
          id = m.next_id;
          uri = uri;
          title = codes "New tab";
          loading = false;
          discarded = false;
          private_mode = false;
          audible = false;
          lifecycle = live;
        }
            ∷ []);
    active = if activate_tab then some m.next_id else m.active;
  },
  m.next_id,
)

-- The vector split at the iterator: `it - begin()` is the length of `before`.
pub record Position : Type 0 where
  pub before : List Tab
  pub tab : Tab
  pub after : List Tab

abbrev shift : Tab → Option Position → Option Position
shift t none = none
shift t (some p) = some (record p { before = t ∷ p.before })

unfoldable pub find_if : ℕ → List Tab → Option Position
find_if id [] = none
find_if id (t ∷ ts) =
    if t.id == id
    then some (record { before = []; tab = t; after = ts })
    else shift t (find_if id ts)

unfoldable pub find : BrowserModel → ℕ → Option Tab
find m id = elim (find_if id m.tabs) [ none ↦ none | some p ↦ some p.tab ]

unfoldable pub activate : BrowserModel → ℕ → BrowserModel × Bool
activate m id = elim (find_if id m.tabs) [
  | none ↦ (m, false)
  | some p ↦ (
    record m {
      tabs = p.before ++ (record p.tab { discarded = false } ∷ p.after);
      active = some id;
      focus = page;
    },
    true,
  )
]

abbrev pub resident : List Tab → ℕ
resident [] = 0
resident (t ∷ ts) = (if t.discarded then 0 else 1) + resident ts

abbrev pub is_active : Option ℕ → ℕ → Bool
is_active none id = false
is_active (some a) id = id == a

-- The loop body's test: neither active, nor loading, nor discarded.
abbrev pub can_discard : Option ℕ → Tab → Bool
can_discard active t = not (is_active active t.id) && not t.loading && not t.discarded

-- `residents` and `count` are the locals `resident` and `discarded`.
unfoldable pub discard_loop : Option ℕ → ℕ → List Tab → ℕ → ℕ → List Tab × ℕ
discard_loop active limit [] residents count = ([], count)
discard_loop active limit (t ∷ ts) residents count =
    let hit = can_discard active t in
    let rest =
      discard_loop active limit ts (if hit then residents - 1 else residents)
        (if hit then count + 1 else count) in
    if leb residents limit
    then (t ∷ ts, count)
    else ((if hit then record t { discarded = true } else t) ∷ rest.0, rest.1)

unfoldable pub discard_to_limit : BrowserModel → ℕ → BrowserModel × ℕ
unfolding discard_loop
discard_to_limit m limit =
    let out = discard_loop m.active limit m.tabs (resident m.tabs) 0 in
    (record m { tabs = out.0 }, out.1)

-- `closed_.push_back`, and `erase(begin())` past the limit.
unfoldable pub remember : ℕ → List Tab → Tab → List Tab
remember limit kept t =
    let pushed = kept ++ (record t { lifecycle = closed } ∷ []) in
    if ltb 0 limit then (if ltb limit (length pushed) then drop 1 pushed else pushed) else kept

abbrev tab_id : Option Tab → Option ℕ
tab_id none = none
tab_id (some t) = some t.id

-- `tabs_[std::min(index, tabs_.size() - 1)].id`, with the test for the empty vector.
unfoldable pub neighbour : List Tab → ℕ → Option ℕ
neighbour [] index = none
neighbour (t ∷ ts) index = tab_id (get_elem? (t ∷ ts) (min index (length (t ∷ ts) - 1)))

unfoldable pub close_tab : BrowserModel → ℕ → BrowserModel × Bool
unfolding remember neighbour
close_tab m id = elim (find_if id m.tabs) [
  | none ↦ (m, false)
  | some p ↦
      let rest = p.before ++ p.after in
      (
        record m {
          closed_tabs = remember m.closed_limit m.closed_tabs p.tab;
          tabs = rest;
          active = if is_active m.active id then neighbour rest (length p.before) else m.active;
        },
        true,
      )
]

-- `back()` with the vector left by `pop_back()`.
unfoldable pub pop_back : List Tab → Option (List Tab × Tab)
pop_back [] = none
pop_back (t ∷ ts) = elim (pop_back ts) [
  | none ↦ some ([], t)
  | some (kept, last) ↦ some (t ∷ kept, last)
]

unfoldable pub reopen_closed : BrowserModel → BrowserModel × Option ℕ
unfolding pop_back
reopen_closed m = elim (pop_back m.closed_tabs) [
  | none ↦ (m, none)
  | some (kept, t) ↦ (
    record m {
      next_id = bump_id m.next_id;
      closed_tabs = kept;
      tabs = m.tabs ++ (record t { id = m.next_id; loading = false; lifecycle = live } ∷ []);
      active = some m.next_id;
    },
    some m.next_id,
  )
]

unfoldable pub duplicate_tab : BrowserModel → ℕ → BrowserModel × Option ℕ
unfolding find new_tab
duplicate_tab m id = elim (find m id) [
  | none ↦ (m, none)
  | some source ↦ ((new_tab m source.uri true).0, some (new_tab m source.uri true).1)
]

unfoldable pub move_tab : BrowserModel → ℕ → ℕ → BrowserModel × Bool
move_tab m id destination = elim (find_if id m.tabs) [
  | none ↦ (m, false)
  | some p ↦
      let rest = p.before ++ p.after in
      let target = if ltb (length p.before) destination then destination - 1 else destination in
      if ltb (length m.tabs) destination
      then (m, false)
      else (record m { tabs = take target rest ++ (p.tab ∷ drop target rest) }, true)
]

unfoldable pub set_focus : BrowserModel → FocusTarget → BrowserModel
set_focus m focus = record m { focus = focus }
