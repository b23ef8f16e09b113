-- ===== src/UserData/Downloads.antt =====
-- src/user_data.cpp: the table of downloads. What the file system says of a destination is a
-- parameter: the size of a regular file, or `none` where there is none or its size is unknown.
use vant.Prelude.{
  ℕ, Bool, true, false, not, ◌&&◌, ◌||◌, List, [], ◌∷◌, ◌++◌, Option, none, some, ltb, leb, ◌==◌,
  if◌then◌else◌, Bytes, codes, bytes_eq, take,
}
use vant.Session.{c_str}
use vant.UserData.{DownloadEntry, UserDataStore, Outcome}

abbrev pub downloading : Bytes
downloading = codes "downloading"

abbrev pub complete : Bytes
complete = codes "complete"

abbrev pub interrupted : Bytes
interrupted = codes "interrupted"

-- The number of the new download, 0 in private mode; `rowid` is what SQLite gives the row.
unfoldable pub add_download :
    Bool → ℕ → Bytes → Bytes → Bytes → ℕ → UserDataStore → UserDataStore × Option ℕ
add_download works rowid uri destination status created_at d =
    if d.private_mode
    then (d, some 0)
    else if works
    then (
      record d {
        download_rows =
            d.download_rows
            ++ record {
              id = rowid;
              uri = c_str uri;
              destination = c_str destination;
              status = c_str status;
              created_at = created_at;
              received = 0;
              total = 0;
            }
              ∷ [];
      },
      some rowid,
    )
    else (d, none)

-- `UPDATE downloads SET … WHERE id=?`.
unfoldable pub change_row :
    ℕ → (DownloadEntry → DownloadEntry) → List DownloadEntry → List DownloadEntry
change_row id f [] = []
change_row id f (x ∷ xs) = (if x.id == id then f x else x) ∷ change_row id f xs

abbrev pub with_status : Bytes → DownloadEntry → DownloadEntry
with_status status x = record x { status = c_str status }

abbrev pub with_progress : ℕ → ℕ → DownloadEntry → DownloadEntry
with_progress received total x = record x { received = received; total = total }

unfoldable pub update_download : Bool → ℕ → Bytes → UserDataStore → Outcome
update_download works id status d =
    if d.private_mode || id == 0
    then (d, true)
    else if works
    then (record d { download_rows = change_row id (with_status status) d.download_rows }, true)
    else (d, false)

unfoldable pub update_download_progress : Bool → ℕ → ℕ → ℕ → UserDataStore → Outcome
update_download_progress works id received total d =
    if d.private_mode || id == 0
    then (d, true)
    else if works
    then (
      record d { download_rows = change_row id (with_progress received total) d.download_rows },
      true,
    )
    else (d, false)

unfoldable pub delete_row : ℕ → List DownloadEntry → List DownloadEntry
delete_row id [] = []
delete_row id (x ∷ xs) = let rest = delete_row id xs in if x.id == id then rest else x ∷ rest

unfoldable pub remove_download : Bool → ℕ → UserDataStore → Outcome
remove_download works id d =
    if d.private_mode
    then (d, true)
    else if works
    then (record d { download_rows = delete_row id d.download_rows }, true)
    else (d, false)

-- `ORDER BY created_at DESC,id DESC`.
unfoldable pub insert_download : DownloadEntry → List DownloadEntry → List DownloadEntry
insert_download e [] = e ∷ []
insert_download e (x ∷ xs) =
    if ltb e.created_at x.created_at || (e.created_at == x.created_at && ltb e.id x.id)
    then x ∷ insert_download e xs
    else e ∷ x ∷ xs

unfoldable pub sort_downloads : List DownloadEntry → List DownloadEntry
unfolding insert_download
sort_downloads [] = []
sort_downloads (e ∷ es) = insert_download e (sort_downloads es)

abbrev pub downloads : ℕ → UserDataStore → List DownloadEntry
downloads limit d = take limit (sort_downloads d.download_rows)

-- The file is there, not empty, and not shorter than was announced.
abbrev pub is_complete : Option ℕ → ℕ → Bool
is_complete none total = false
is_complete (some size) total = ltb 0 size && (total == 0 || leb total size)

abbrev pub size_or_zero : Option ℕ → ℕ
size_or_zero none = 0
size_or_zero (some size) = size

-- A round of `reconcile_downloads`, where SQLite's statements succeed.
unfoldable pub reconcile_one : Option ℕ → DownloadEntry → UserDataStore → UserDataStore
reconcile_one file e d =
    if not (bytes_eq e.status downloading)
    then d
    else if is_complete file e.total
    then (let size = size_or_zero file in
        (update_download true e.id complete
          (update_download_progress true e.id size (if e.total == 0 then size else e.total) d).0).0)
    else (update_download true e.id interrupted d).0

unfoldable pub reconcile_each :
    (Bytes → Option ℕ) → List DownloadEntry → UserDataStore → UserDataStore
reconcile_each files [] d = d
reconcile_each files (e ∷ es) d = reconcile_each files es (reconcile_one (files e.destination) e d)

-- `downloads()` has the limit 500.
unfoldable pub reconcile_downloads : (Bytes → Option ℕ) → UserDataStore → UserDataStore
reconcile_downloads files d = if d.private_mode then d else reconcile_each files (downloads 500 d) d
