-- ===== src/Session.antt =====
-- src/session_store.h and src/session_store.cpp: the tabs that survive a restart. SQLite is not
-- modelled: what its calls may answer is the parameter `Sqlite`, and a database is what the program
-- stores in it, the value under `clean_shutdown` and the rows of `tabs` in the order of `position`.
-- A statement that fails leaves the stored data alone.
pub mod Laws
pub mod Tests
use vant.Prelude.{
  ℕ, suc, ◌+◌, Bool, true, false, not, ◌&&◌, ◌||◌, List, [], ◌∷◌, ◌++◌, Option, none, some, ◌==◌,
  if◌then◌else◌, Bytes, codes, bytes_eq,
}
use vant.Strings.{is_empty, until}
use vant.Browser.{Tab, live, is_active}

pub record Row : Type 0 where
  pub position : ℕ
  pub uri : Bytes
  pub title : Bytes
  pub active : Bool

pub record Database : Type 0 where
  pub clean_shutdown : Bytes
  pub rows : List Row
  -- A transaction was begun and neither committed nor rolled back.
  pub in_transaction : Bool

-- Whether each call of SQLite succeeds: `opens` with the statements of the constructor, `updates` an
-- `UPDATE` of `meta`, and `steps n` whether the `n`-th row of a query is delivered. `rolls_back` is
-- whether SQLite ends the transaction of a failing `DELETE` by itself, as it may where the disk is
-- full, the file cannot be written, memory is out or the statement is interrupted.
pub record Sqlite : Type 0 where
  pub opens : Bool
  pub begins : Bool
  pub deletes : Bool
  pub rolls_back : Bool
  pub updates : Bool
  pub prepares : Bool
  pub steps : ℕ → Bool
  pub inserts : ℕ → Bool
  pub commits : Bool

-- The database after a call that returns, or that throws.
pub data Outcome : Type 0 where
  saved : Database → Outcome
  thrown : Database → Outcome

-- The tables as the constructor makes them where they are not there.
unfoldable pub empty_database : Database
empty_database = record { clean_shutdown = codes "1"; rows = []; in_transaction = false }

abbrev stored_or_empty : Option Database → Database
stored_or_empty none = empty_database
stored_or_empty (some d) = record d { in_transaction = false }

-- The constructor; `stored` is what the file holds, and `none` is an exception. A private store is
-- in memory. What a transaction left open by another process did is rolled back by SQLite.
unfoldable pub open_store : Sqlite → Bytes → Bool → Option Database → Option Database
unfolding empty_database
open_store sqlite path private_mode stored =
    if not private_mode && is_empty path
    then none
    else if not sqlite.opens
    then none
    else some (if private_mode then empty_database else stored_or_empty stored)

unfoldable pub mark_started : Sqlite → Database → Option Database
mark_started sqlite d =
    if sqlite.updates then some (record d { clean_shutdown = codes "0" }) else none

unfoldable pub mark_clean_shutdown : Sqlite → Database → Option Database
mark_clean_shutdown sqlite d =
    if sqlite.updates then some (record d { clean_shutdown = codes "1" }) else none

unfoldable pub previous_exit_clean : Sqlite → Database → Option Bool
previous_exit_clean sqlite d =
    if sqlite.prepares then some (sqlite.steps 0 && bytes_eq d.clean_shutdown (codes "1")) else none

-- `c_str()` with the length -1: the text up to its first zero byte.
abbrev pub c_str : Bytes → Bytes
c_str = until 0

-- The loop of `save_tabs`, from the `i`-th tab on.
unfoldable pub insert_rows : Sqlite → Option ℕ → ℕ → List Tab → List Row → Option (List Row)
insert_rows sqlite active i [] rows = some rows
insert_rows sqlite active i (t ∷ ts) rows =
    let row : Row = record {
      position = i;
      uri = c_str t.uri;
      title = c_str t.title;
      active = is_active active t.id;
    } in
    let rest = insert_rows sqlite active (i + 1) ts (rows ++ row ∷ []) in
    if sqlite.inserts i then rest else none

abbrev commit : Sqlite → Database → Option (List Row) → Outcome
commit sqlite d none = thrown d
commit sqlite d (some rows) = if sqlite.commits then saved (record d { rows = rows }) else thrown d

-- `BEGIN` is refused inside a transaction. A `DELETE` that fails is not rolled back by the program: it
-- stands before the `try`.
unfoldable pub save_tabs : Sqlite → Database → List Tab → Option ℕ → Outcome
save_tabs sqlite d tabs active =
    if d.in_transaction || not sqlite.begins
    then thrown d
    else if not sqlite.deletes
    then thrown (record d { in_transaction = not sqlite.rolls_back })
    else if not sqlite.prepares
    then thrown d
    else commit sqlite d (insert_rows sqlite active 0 tabs [])

abbrev load_row : ℕ → Row → Tab
load_row loaded r = record {
  id = loaded + 1;
  uri = c_str r.uri;
  title = c_str r.title;
  loading = false;
  discarded = false;
  private_mode = false;
  audible = false;
  lifecycle = live;
}

-- The loop of `load_tabs`; `loaded` is `tabs.size()`. An error ends it like the last row.
unfoldable pub load_rows : Sqlite → ℕ → List Row → List Tab
load_rows sqlite loaded [] = []
load_rows sqlite loaded (r ∷ rs) =
    let rest = load_rows sqlite (loaded + 1) rs in
    if sqlite.steps loaded then load_row loaded r ∷ rest else []

unfoldable pub load_tabs : Sqlite → Database → Option (List Tab)
load_tabs sqlite d = if sqlite.prepares then some (load_rows sqlite 0 d.rows) else none
