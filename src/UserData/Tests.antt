-- ===== src/UserData/Tests.antt =====
-- Runs of the user data store, src/user_data.cpp, at concrete rows.
use vant.Prelude.{
  ◌≡◌, refl, Bool, true, false, List, [], ◌∷◌, some, arith, Bytes, codes, All, bytes_eq, ℕ, Option,
}
use vant.Strings.{is_empty, starts_with, until}
use vant.UserData.{
  Permission, UserDataStore, DownloadEntry, is_bookmarked, update_bookmark, corrected,
}
use vant.UserData.Downloads.{reconcile_downloads, downloading, complete}
use vant.UserData.Paths.{safe_name, filename_from, extension_from, kept_bytes}
use vant.UserData.Permissions.{is_bookmarked-update_bookmark}
use vant.UserData.Privacy.{
  perform_all, SameTraces, perform_all-SameTraces, Call, bookmark, visit, icon, download, clear,
  decide,
}
use vant.UserData.Reconcile.{reconcile_downloads-settled}

abbrev site : Bytes
site = codes "https://example.org"

abbrev camera : Bytes
camera = codes "camera"

abbrev pub fetched : ℕ → Bytes → ℕ → DownloadEntry
fetched id status total = record {
  id = id;
  uri = codes "https://example.org/a.zip";
  destination = codes "/home/u/a.zip";
  status = status;
  created_at = 7;
  received = 0;
  total = total;
}

abbrev pub empty_store : Bool → UserDataStore
empty_store private_mode = record {
  private_mode = private_mode;
  bookmark_rows = [];
  history_rows = [];
  download_rows = [];
  favicon_rows = [];
  permission_rows = [];
}

abbrev pub two_downloads : UserDataStore
two_downloads = record (empty_store false) {
  download_rows = fetched 1 downloading 5 ∷ fetched 2 complete 9 ∷ [];
}

abbrev one_bookmark : UserDataStore
one_bookmark = record (empty_store false) {
  bookmark_rows = record { uri = site; title = codes "Example" } ∷ [];
}

-- The old bookmark is lost when the second statement fails.
is_bookmarked-update_bookmark_example :
    is_bookmarked site
      (update_bookmark true false site
        (record { uri = codes "https://example.com"; title = [] })
        one_bookmark).0
    ≡ false
unfolding is_empty bytes_eq until
is_bookmarked-update_bookmark_example =
    is_bookmarked-update_bookmark true false site site
      (record { uri = codes "https://example.com"; title = [] }) one_bookmark

abbrev private_calls : List Call
private_calls =
    bookmark true (record { uri = site; title = codes "Example" })
    ∷ visit true 1 site (codes "Example") 7
    ∷ icon true site (codes "data:,")
    ∷ decide true site camera Permission.deny
    ∷ download true 1 site (codes "/home/u/a.zip") downloading 7
    ∷ clear true
    ∷ []

perform_all-SameTraces_example :
    SameTraces (empty_store true) (perform_all private_calls (empty_store true))
perform_all-SameTraces_example = perform_all-SameTraces private_calls (empty_store true) refl

abbrev files : Bytes → Option ℕ
files path = some 5

reconcile_downloads-settled_example :
    All
      (λ (e : DownloadEntry). bytes_eq e.status downloading ≡ false)
      (reconcile_downloads files two_downloads).download_rows
reconcile_downloads-settled_example =
    reconcile_downloads-settled files two_downloads refl (omega arith)
      (ground arith, (ground arith, tt))

hidden_name : safe_name (codes "../../.bashrc") ≡ codes "download.bashrc"
unfolding safe_name filename_from extension_from kept_bytes is_empty bytes_eq
hidden_name = refl

png_icon :
    corrected (codes "data:image/x-icon;base64,iVBORw0K") ≡ codes "data:image/png;base64,iVBORw0K"
unfolding corrected starts_with
png_icon = refl
