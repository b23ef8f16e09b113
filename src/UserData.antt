-- ===== src/UserData.antt =====
-- src/user_data.h and src/user_data.cpp: bookmarks, history, favicons and permissions. SQLite is not
-- modelled: a table is the list of its rows, and whether a statement of a call succeeds is an
-- argument; reading succeeds. A method returns the store and whether it returned; otherwise it has
-- thrown. Times and sizes are natural numbers.
pub mod Downloads
pub mod Listed
pub mod Paths
pub mod Permissions
pub mod Privacy
pub mod Reconcile
pub mod Tests
use vant.Prelude.{
  ℕ, ◌+◌, Bool, true, false, not, ◌&&◌, ◌||◌, List, [], ◌∷◌, ◌++◌, Option, none, some, ltb, leb,
  ◌==◌, if◌then◌else◌, Bytes, codes, bytes_eq, take, drop, length,
}
use vant.Strings.{is_empty, starts_with}
use vant.Preferences.{bytes_lt}
use vant.Session.{c_str}

pub data Permission : Type 0 where
  ask allow deny : Permission

pub record Bookmark : Type 0 where
  pub uri : Bytes
  pub title : Bytes

pub record HistoryEntry : Type 0 where
  pub id : ℕ
  pub uri : Bytes
  pub title : Bytes
  pub visited_at : ℕ

pub record PermissionEntry : Type 0 where
  pub origin : Bytes
  pub capability : Bytes
  pub decision : Permission

pub record DownloadEntry : Type 0 where
  pub id : ℕ
  pub uri : Bytes
  pub destination : Bytes
  pub status : Bytes
  pub created_at : ℕ
  pub received : ℕ
  pub total : ℕ

pub record UserDataStore : Type 0 where
  pub private_mode : Bool
  pub bookmark_rows : List Bookmark
  pub history_rows : List HistoryEntry
  pub download_rows : List DownloadEntry
  pub favicon_rows : List (Bytes × Bytes)
  pub permission_rows : List PermissionEntry

abbrev pub Outcome : Type 0
Outcome = UserDataStore × Bool

-- `INSERT … ON CONFLICT(uri) DO UPDATE`.
unfoldable pub put_bookmark : Bookmark → List Bookmark → List Bookmark
put_bookmark b [] = b ∷ []
put_bookmark b (x ∷ xs) = if bytes_eq x.uri b.uri then b ∷ xs else x ∷ put_bookmark b xs

unfoldable pub add_bookmark : Bool → Bookmark → UserDataStore → Outcome
unfolding put_bookmark
add_bookmark works b d = if is_empty b.uri || not works then (d, false) else (
  record d {
    bookmark_rows =
        put_bookmark (record { uri = c_str b.uri; title = c_str b.title }) d.bookmark_rows;
  },
  true,
)

unfoldable pub delete_bookmark : Bytes → List Bookmark → List Bookmark
delete_bookmark uri [] = []
delete_bookmark uri (x ∷ xs) =
    let rest = delete_bookmark uri xs in if bytes_eq x.uri uri then rest else x ∷ rest

unfoldable pub remove_bookmark : Bool → Bytes → UserDataStore → Outcome
unfolding delete_bookmark
remove_bookmark works uri d =
    if works
    then (record d { bookmark_rows = delete_bookmark (c_str uri) d.bookmark_rows }, true)
    else (d, false)

-- The two statements are no transaction.
unfoldable pub update_bookmark : Bool → Bool → Bytes → Bookmark → UserDataStore → Outcome
unfolding remove_bookmark add_bookmark
update_bookmark deletes inserts old_uri b d =
    if is_empty b.uri || not deletes
    then (d, false)
    else add_bookmark inserts b (remove_bookmark true old_uri d).0

-- `ORDER BY title,uri`.
unfoldable pub insert_bookmark : Bookmark → List Bookmark → List Bookmark
insert_bookmark b [] = b ∷ []
insert_bookmark b (x ∷ xs) =
    if bytes_lt x.title b.title || (bytes_eq x.title b.title && bytes_lt x.uri b.uri)
    then x ∷ insert_bookmark b xs
    else b ∷ x ∷ xs

unfoldable pub sort_bookmarks : List Bookmark → List Bookmark
unfolding insert_bookmark
sort_bookmarks [] = []
sort_bookmarks (b ∷ bs) = insert_bookmark b (sort_bookmarks bs)

abbrev pub bookmarks : UserDataStore → List Bookmark
bookmarks d = sort_bookmarks d.bookmark_rows

unfoldable pub has_bookmark : Bytes → List Bookmark → Bool
has_bookmark uri [] = false
has_bookmark uri (x ∷ xs) = bytes_eq x.uri uri || has_bookmark uri xs

unfoldable pub is_bookmarked : Bytes → UserDataStore → Bool
is_bookmarked uri d = has_bookmark (c_str uri) d.bookmark_rows

unfoldable pub put_favicon : Bytes → Bytes → List (Bytes × Bytes) → List (Bytes × Bytes)
put_favicon page icon [] = (page, icon) ∷ []
put_favicon page icon ((p, i) ∷ rows) =
    if bytes_eq p page then (page, icon) ∷ rows else (p, i) ∷ put_favicon page icon rows

unfoldable pub set_favicon : Bool → Bytes → Bytes → UserDataStore → Outcome
unfolding put_favicon
set_favicon works page icon d =
    if d.private_mode || is_empty page || is_empty icon
    then (d, true)
    else if works
    then (record d { favicon_rows = put_favicon (c_str page) (c_str icon) d.favicon_rows }, true)
    else (d, false)

unfoldable pub find_favicon : Bytes → List (Bytes × Bytes) → Bytes
find_favicon page [] = []
find_favicon page ((p, i) ∷ rows) = if bytes_eq p page then i else find_favicon page rows

-- Icons that were stored under one kind are given the kind that their first bytes show.
unfoldable pub corrected : Bytes → Bytes
corrected icon =
    if not (starts_with (codes "data:image/x-icon;base64,") icon)
    then icon
    else (let payload = drop 25 icon in
        if starts_with (codes "iVBOR") payload
        then codes "data:image/png;base64," ++ payload
        else if starts_with (codes "UklGR") payload
        then codes "data:image/webp;base64," ++ payload
        else if starts_with (codes "PD94bW") payload || starts_with (codes "PHN2Z") payload
        then codes "data:image/svg+xml;base64," ++ payload
        else icon)

abbrev pub favicon : Bytes → UserDataStore → Bytes
favicon page d = corrected (find_favicon (c_str page) d.favicon_rows)

-- The number of the new row is SQLite's.
unfoldable pub add_history : Bool → ℕ → Bytes → Bytes → ℕ → UserDataStore → Outcome
add_history works rowid uri title visited_at d =
    if d.private_mode || is_empty uri
    then (d, true)
    else if works
    then (
      record d {
        history_rows =
            d.history_rows
            ++ record { id = rowid; uri = c_str uri; title = c_str title; visited_at = visited_at }
              ∷ [];
      },
      true,
    )
    else (d, false)

-- `ORDER BY visited_at DESC,id DESC`.
unfoldable pub insert_history : HistoryEntry → List HistoryEntry → List HistoryEntry
insert_history h [] = h ∷ []
insert_history h (x ∷ xs) =
    if ltb h.visited_at x.visited_at || (h.visited_at == x.visited_at && ltb h.id x.id)
    then x ∷ insert_history h xs
    else h ∷ x ∷ xs

unfoldable pub sort_history : List HistoryEntry → List HistoryEntry
unfolding insert_history
sort_history [] = []
sort_history (h ∷ hs) = insert_history h (sort_history hs)

abbrev pub history : ℕ → UserDataStore → List HistoryEntry
history limit d = take limit (sort_history d.history_rows)

unfoldable pub clear_history : Bool → UserDataStore → Outcome
clear_history works d =
    if d.private_mode
    then (d, true)
    else if works
    then (record d { history_rows = [] }, true)
    else (d, false)

unfoldable pub delete_history : ℕ → List HistoryEntry → List HistoryEntry
delete_history id [] = []
delete_history id (x ∷ xs) =
    let rest = delete_history id xs in if x.id == id then rest else x ∷ rest

-- The loop of `remove_history`: each deletion is a statement of its own, the `i`-th of the call.
unfoldable pub delete_each : (ℕ → Bool) → ℕ → List ℕ → UserDataStore → Outcome
delete_each works i [] d = (d, true)
delete_each works i (id ∷ ids) d =
    let rest =
      delete_each works (i + 1) ids
        (record d { history_rows = delete_history id d.history_rows }) in
    if works i then rest else (d, false)

unfoldable pub remove_history : (ℕ → Bool) → List ℕ → UserDataStore → Outcome
remove_history works ids d = if d.private_mode then (d, true) else delete_each works 0 ids d

abbrev pub is_http : Bytes → Bool
is_http origin = starts_with (codes "https://") origin || starts_with (codes "http://") origin

unfoldable pub put_permission : PermissionEntry → List PermissionEntry → List PermissionEntry
put_permission e [] = e ∷ []
put_permission e (x ∷ xs) =
    if bytes_eq x.origin e.origin && bytes_eq x.capability e.capability
    then e ∷ xs
    else x ∷ put_permission e xs

unfoldable pub set_permission : Bool → Bytes → Bytes → Permission → UserDataStore → Outcome
set_permission works origin capability value d =
    if not (is_http origin) || not works then (d, false) else (
      record d {
        permission_rows =
            put_permission
              (record { origin = c_str origin; capability = c_str capability; decision = value })
              d.permission_rows;
      },
      true,
    )

unfoldable pub find_permission : Bytes → Bytes → List PermissionEntry → Permission
find_permission origin capability [] = ask
find_permission origin capability (x ∷ xs) =
    if bytes_eq x.origin origin && bytes_eq x.capability capability
    then x.decision
    else find_permission origin capability xs

abbrev pub permission : Bytes → Bytes → UserDataStore → Permission
permission origin capability d = find_permission (c_str origin) (c_str capability) d.permission_rows
