-- ===== src/Session/Laws.antt =====
-- What survives a restart, session_store.cpp.
use vant.Prelude.{
  ℕ, ◌+◌, ◌≡◌, refl, ◌∙◌, ◌⊎◌, inl, inr, Bool, true, false, not, ◌&&◌, List, [], ◌∷◌, ◌++◌, Option,
  none, some, arith, if◌then◌else◌, Bytes, bytes_eq, Option-cases, Bool-cases,
}
use vant.Strings.{until, is_empty}
use vant.Browser.{Tab, live, is_active}
use vant.Session.{
  Row, Database, Outcome, Sqlite, saved, thrown, open_store, mark_started, mark_clean_shutdown,
  previous_exit_clean, c_str, insert_rows, save_tabs, load_rows, load_tabs,
}

-- A tab as it comes back: a new id, and of the rest the address and the title.
abbrev pub restored : ℕ → Tab → Tab
restored i t = record {
  id = i;
  uri = c_str t.uri;
  title = c_str t.title;
  loading = false;
  discarded = false;
  private_mode = false;
  audible = false;
  lifecycle = live;
}

abbrev pub restore_all : ℕ → List Tab → List Tab
restore_all i [] = []
restore_all i (t ∷ ts) = restored (i + 1) t ∷ restore_all (i + 1) ts

until_idem : (c : ℕ) (s : Bytes) → until c (until c s) ≡ until c s
unfolding until
until_idem c [] = refl
until_idem c (x ∷ s) = ground (arith, until_idem c s)

abbrev row_of : Option ℕ → ℕ → Tab → Row
row_of active i t = record {
  position = i;
  uri = c_str t.uri;
  title = c_str t.title;
  active = is_active active t.id;
}

abbrev rows_of : Option ℕ → ℕ → List Tab → List Row
rows_of active i [] = []
rows_of active i (t ∷ ts) = row_of active i t ∷ rows_of active (i + 1) ts

insert_rows-some :
    (sqlite : Sqlite) (active : Option ℕ) (i : ℕ) (ts : List Tab) (rows out : List Row)
    → insert_rows sqlite active i ts rows ≡ some out
    → out ≡ rows ++ rows_of active i ts
unfolding insert_rows
insert_rows-some sqlite active i [] rows out e = ground (arith, vant.Prelude.append-nil rows)
insert_rows-some sqlite active i (t ∷ ts) rows out e = ground (
  arith,
  insert_rows-some sqlite active (i + 1) ts (rows ++ row_of active i t ∷ []) out,
  vant.Prelude.append_assoc rows (row_of active i t ∷ []) (rows_of active (i + 1) ts),
)

load_rows-rows_of :
    (sqlite : Sqlite) (active : Option ℕ) (i : ℕ) (ts : List Tab)
    → ((n : ℕ) → sqlite.steps n ≡ true)
    → load_rows sqlite i (rows_of active i ts) ≡ restore_all i ts
unfolding load_rows
load_rows-rows_of sqlite active i [] h = refl
load_rows-rows_of sqlite active i (t ∷ ts) h =
    rw (h i, until_idem 0 t.uri, until_idem 0 t.title, load_rows-rows_of sqlite active (i + 1) ts h)

-- What a save that returned has stored: a row for each tab, in order, and nothing else changed.
save_tabs-saved :
    (sqlite : Sqlite) (d d' : Database) (tabs : List Tab) (active : Option ℕ)
    → save_tabs sqlite d tabs active ≡ saved d'
    → d' ≡ record d { rows = rows_of active 0 tabs }
unfolding save_tabs
save_tabs-saved sqlite d d' tabs active e =
    elim (Option-cases (insert_rows sqlite active 0 tabs [])) [
      | inl miss ↦ ground arith
      | inr (rows, found) ↦ ground (arith, insert_rows-some sqlite active 0 tabs [] rows found)
    ]

-- After a save that returned, loading with every row delivered gives a tab for each saved one, in order, with the ids 1, 2, …
-- and the address and title of the saved tab up to a zero byte, whatever was stored before.
pub load-save_tabs :
    (sqlite : Sqlite) (d d' : Database) (tabs : List Tab) (active : Option ℕ)
    → sqlite.prepares ≡ true
    → ((n : ℕ) → sqlite.steps n ≡ true)
    → save_tabs sqlite d tabs active ≡ saved d'
    → load_tabs sqlite d' ≡ some (restore_all 0 tabs)
unfolding load_tabs
load-save_tabs sqlite d d' tabs active p h e =
    rw (save_tabs-saved sqlite d d' tabs active e, load_rows-rows_of sqlite active 0 tabs h)
      (ground (arith, p))

-- A save that throws, at any of its statements, leaves the stored tabs and the exit mark as they
-- were.
pub save_tabs-thrown :
    (sqlite : Sqlite) (d d' : Database) (tabs : List Tab) (active : Option ℕ)
    → save_tabs sqlite d tabs active ≡ thrown d'
    → (d'.rows ≡ d.rows) × (d'.clean_shutdown ≡ d.clean_shutdown)
unfolding save_tabs
save_tabs-thrown sqlite d d' tabs active e = ground arith

insert_rows-total :
    (sqlite : Sqlite) (active : Option ℕ) (i : ℕ) (ts : List Tab) (rows : List Row)
    → ((n : ℕ) → sqlite.inserts n ≡ true)
    → (out : List Row) × (insert_rows sqlite active i ts rows ≡ some out)
unfolding insert_rows
insert_rows-total sqlite active i [] rows h = (rows, refl)
insert_rows-total sqlite active i (t ∷ ts) rows h =
    let (out, e) = insert_rows-total sqlite active (i + 1) ts (rows ++ row_of active i t ∷ []) h in
    (out, rw (h i) e)

-- Where no transaction is open and every statement succeeds, the save returns.
pub save_tabs-total :
    (sqlite : Sqlite) (d : Database) (tabs : List Tab) (active : Option ℕ)
    → d.in_transaction ≡ false
    → (sqlite.begins && (sqlite.deletes && (sqlite.prepares && sqlite.commits))) ≡ true
    → ((n : ℕ) → sqlite.inserts n ≡ true)
    → (d' : Database) × (save_tabs sqlite d tabs active ≡ saved d')
unfolding save_tabs
save_tabs-total sqlite d tabs active idle good inserts =
    let (out, e) = insert_rows-total sqlite active 0 tabs [] inserts in
    (record d { rows = out }, ground arith)

abbrev pub database : Outcome → Database
database (saved d) = d
database (thrown d) = d

-- The statement that leaves a transaction open behind a save.
abbrev pub left_open : Sqlite → Bool
left_open sqlite = sqlite.begins && (not sqlite.deletes && not sqlite.rolls_back)

save_tabs-in_transaction :
    (sqlite : Sqlite) (d : Database) (tabs : List Tab) (active : Option ℕ)
    → d.in_transaction ≡ false
    → (database (save_tabs sqlite d tabs active)).in_transaction ≡ left_open sqlite
unfolding save_tabs
save_tabs-in_transaction sqlite d tabs active idle =
    elim (Option-cases (insert_rows sqlite active 0 tabs [])) [
      | inl miss ↦ ground arith
      | inr (rows, found) ↦ ground arith
    ]

save_tabs-in_open :
    (sqlite : Sqlite) (d : Database) (tabs : List Tab) (active : Option ℕ)
    → d.in_transaction ≡ true
    → save_tabs sqlite d tabs active ≡ thrown d
unfolding save_tabs
save_tabs-in_open sqlite d tabs active h = ground arith

-- A save outside a transaction leaves one open exactly where its `BEGIN` succeeds, its `DELETE` fails
-- and SQLite does not end the transaction by itself. The next save on the connection then throws and
-- leaves the same state, so that every later one throws too, whatever SQLite answers it.
pub save_tabs-stuck :
    (sqlite later : Sqlite) (d : Database) (tabs ts : List Tab) (active a : Option ℕ)
    → d.in_transaction ≡ false
    → let after = database (save_tabs sqlite d tabs active) in
      ((left_open sqlite ≡ true) × (save_tabs later after ts a ≡ thrown after))
      ⊎ ((left_open sqlite ≡ false) × (after.in_transaction ≡ false))
save_tabs-stuck sqlite later d tabs ts active a idle =
    let after = database (save_tabs sqlite d tabs active) in
    let e = save_tabs-in_transaction sqlite d tabs active idle in
    elim (Bool-cases (left_open sqlite)) [
      | inl h ↦ inl (h, save_tabs-in_open later after ts a (e ∙ h))
      | inr h ↦ inr (h, e ∙ h)
    ]

infixl 10 ◌>>=◌
abbrev ◌>>=◌ : Option Database → (Database → Option Bool) → Option Bool
none >>= f = none
some d >>= f = f d

-- What the next run on the same file is told of a run that was started and then closed or not.
unfoldable pub next_run : Sqlite → Bytes → Bool → Database → Option Bool
next_run sqlite path closed d = do
  started ← mark_started sqlite d
  ended ← if closed then mark_clean_shutdown sqlite started else some started
  next ← open_store sqlite path false (some ended)
  previous_exit_clean sqlite next

-- Where SQLite's calls succeed, the run that next opens the same file is told that the one before was
-- clean exactly if it was marked so after its start.
pub next_run-closed :
    (sqlite : Sqlite) (path : Bytes) (closed : Bool) (d : Database)
    → (sqlite.opens && (sqlite.updates && (sqlite.prepares && sqlite.steps 0))) ≡ true
    → is_empty path ≡ false
    → next_run sqlite path closed d ≡ some closed
unfolding next_run open_store mark_started mark_clean_shutdown previous_exit_clean bytes_eq
next_run-closed sqlite path true d good h = ground arith
next_run-closed sqlite path false d good h = ground arith
