-- ===== src/Downloads.antt =====
-- src/native_app.cpp: the life of a download, from WebKit's signal that it starts to the one that it
-- is finished. SQLite's statements succeed; what WebKit and GIO report are arguments. The popover
-- that shows the downloads is left out.
pub mod Laws
pub mod Naming
pub mod Tests
use vant.Prelude.{
  ℕ, ◌+◌, Bool, true, false, not, ◌&&◌, ◌||◌, List, [], ◌∷◌, ◌++◌, Option, none, some, ltb, ◌==◌,
  if◌then◌else◌, Bytes, codes,
}
use vant.Json.{json_string}
use vant.Preferences.File.{join_path}
use vant.Strings.{is_empty}
use vant.UserData.{UserDataStore}
use vant.UserData.Downloads.{
  add_download, update_download, update_download_progress, downloading, complete,
}
use vant.Windows.{
  TabState, WindowState, ApplicationState, find_position, find_window, is_some_of, publish_event,
  set_window,
}

-- `download` is the number of WebKit's download, `record_id` the row of the store, 0 for none.
pub record DownloadContext : Type 0 where
  pub download : ℕ
  pub record_id : ℕ
  pub failed : Bool
  pub cancelled : Bool
  pub private_mode : Bool
  pub prompt_destination : Bool
  pub window : Option ℕ
  pub destination : Bytes
  pub suggested_name : Bytes

-- The windows with the store and the downloads that are running.
pub record Owner : Type 0 where
  pub app : ApplicationState
  pub store : UserDataStore
  pub active_downloads : List DownloadContext

-- The tab that shows a view; a download without a view has no tab.
unfoldable pub view_tab : Option ℕ → WindowState → Bool
view_tab view w = elim (find_position (λ t. is_some_of view t.view) w.tabs) [
  | none ↦ false
  | some p ↦ true
]

unfoldable pub source_window : Option ℕ → List WindowState → Option WindowState
source_window view [] = none
source_window view (w ∷ ws) =
    let later = source_window view ws in if view_tab view w then some w else later

abbrev pub fresh_context : ℕ → Bool → Bool → Option ℕ → DownloadContext
fresh_context download private_mode prompt window = record {
  download = download;
  record_id = 0;
  failed = false;
  cancelled = false;
  private_mode = private_mode;
  prompt_destination = prompt;
  window = window;
  destination = [];
  suggested_name = [];
}

abbrev uri_payload : Bytes → Bytes
uri_payload uri = codes "{\"uri\":" ++ json_string uri ++ codes "}"

abbrev pub adopted : Option WindowState → ℕ → Bool → Owner → Owner
adopted none download save_as o = record o {
  active_downloads = o.active_downloads ++ fresh_context download false false none ∷ [];
}
adopted (some w) download save_as o = record o {
  app = set_window (record w { prompt_next_download = false }) o.app;
  active_downloads =
      o.active_downloads
      ++ fresh_context download w.private_mode (save_as || w.prompt_next_download) (some w.id) ∷ [];
}

-- `save_as` is the mark that `vantage-save-as` leaves on a download.
unfoldable pub download_started : ℕ → Option ℕ → Bool → Bytes → Owner → Owner
download_started download view save_as uri o =
    let p = adopted (source_window view o.app.windows) download save_as o in
    record p { app = publish_event (codes "download.started") (uri_payload uri) p.app }

-- The flag that the image menu sets, and that closing the menu clears.
unfoldable pub context_menu : Bool → WindowState → ApplicationState → ApplicationState
context_menu image w a = set_window (record w { prompt_next_download = image }) a

unfoldable pub context_menu_dismissed : WindowState → ApplicationState → ApplicationState
context_menu_dismissed w a = set_window (record w { prompt_next_download = false }) a

abbrev reported : Option Bytes → DownloadContext → DownloadContext
reported none c = c
reported (some path) c = record c { destination = path }

abbrev or_suggested : Bytes → DownloadContext → DownloadContext
or_suggested home c =
    if is_empty c.destination then record c { destination = join_path home c.suggested_name } else c

abbrev pub placed : Option Bytes → Bytes → DownloadContext → DownloadContext
placed path home c = or_suggested home (reported path c)

abbrev number : Option ℕ → DownloadContext → DownloadContext
number none c = c
number (some id) c = record c { record_id = id }

-- `path` is the local path that is reported, `home` the directory for downloads, `rowid` the number
-- that SQLite gives the row.
unfoldable pub download_created_destination :
    Option Bytes
    → Bytes
    → Bytes
    → ℕ
    → ℕ
    → DownloadContext
    → UserDataStore
    → DownloadContext × UserDataStore
download_created_destination path home source now rowid c d =
    let p = placed path home c in
    if not p.private_mode && p.record_id == 0
    then (let added = add_download true rowid source p.destination downloading now d in
        (number added.1 p, added.0))
    else (p, d)

abbrev failure_status : Option Bytes → Bytes
failure_status none = codes "failed"
failure_status (some message) = codes "failed: " ++ message

abbrev or_failed : Option Bytes → Bytes
or_failed none = codes "failed"
or_failed (some message) = message

abbrev pub is_recorded : DownloadContext → Bool
is_recorded c = not c.private_mode && not (c.record_id == 0)

unfoldable pub download_failed :
    Option Bytes → DownloadContext → UserDataStore → DownloadContext × UserDataStore
download_failed message c d = (
  record c { failed = true },
  if is_recorded c && not c.cancelled
      then (update_download true c.record_id (failure_status message) d).0
      else d,
)

-- `content_length`, where it is known and above 0.
abbrev pub length_or : ℕ → Option ℕ → ℕ
length_or other none = other
length_or other (some n) = if ltb 0 n then n else other

unfoldable pub download_received :
    ℕ → Option ℕ → DownloadContext → UserDataStore → DownloadContext × UserDataStore
download_received received length c d = (
  c,
  if is_recorded c
      then (update_download_progress true c.record_id received (length_or 0 length) d).0
      else d,
)

unfoldable pub download_finished : ℕ → Option ℕ → DownloadContext → UserDataStore → UserDataStore
download_finished received length c d =
    if not c.failed && not c.cancelled && is_recorded c
    then (let progressed =
          (update_download_progress true c.record_id received (length_or received length) d).0 in
        (update_download true c.record_id complete progressed).0)
    else d

-- The signals of a running download; the addresses are for the events.
pub data Signal : Type 0 where
  created : Option Bytes → Bytes → Bytes → ℕ → ℕ → Signal
  failed : Bytes → Option Bytes → Signal
  received finished : Bytes → ℕ → Option ℕ → Signal

-- What a handler makes of the download and the store.
unfoldable pub handle : Signal → DownloadContext → UserDataStore → DownloadContext × UserDataStore
handle (created path home source now rowid) c d =
    download_created_destination path home source now rowid c d
handle (failed uri message) c d = download_failed message c d
handle (received uri n length) c d = download_received n length c d
handle (finished uri n length) c d = (c, download_finished n length c d)

-- The event that a handler publishes.
unfoldable pub announce : Signal → DownloadContext → ApplicationState → ApplicationState
announce (created path home source now rowid) c a = a
announce (failed uri message) c a =
    publish_event (codes "download.failed")
      (codes "{\"uri\":"
        ++ json_string uri
        ++ codes ",\"message\":"
        ++ json_string (or_failed message)
        ++ codes "}")
      a
announce (received uri n length) c a = a
announce (finished uri n length) c a =
    publish_event (codes "download.finished")
      (codes "{\"uri\":"
        ++ json_string uri
        ++ codes ",\"destination\":"
        ++ json_string c.destination
        ++ codes "}")
      a

unfoldable pub find_context :
    (DownloadContext → Bool) → List DownloadContext → Option DownloadContext
find_context test [] = none
find_context test (c ∷ cs) = let later = find_context test cs in if test c then some c else later

unfoldable pub set_context : DownloadContext → List DownloadContext → List DownloadContext
set_context c [] = []
set_context c (x ∷ xs) = (if x.download == c.download then c else x) ∷ set_context c xs

unfoldable pub without_context : ℕ → List DownloadContext → List DownloadContext
without_context download [] = []
without_context download (x ∷ xs) =
    let rest = without_context download xs in if x.download == download then rest else x ∷ rest

-- The last signal of a download takes it out of the running ones.
abbrev pub after_signal : Signal → DownloadContext → List DownloadContext → List DownloadContext
after_signal (created path home source now rowid) c cs = set_context c cs
after_signal (failed uri message) c cs = set_context c cs
after_signal (received uri n length) c cs = set_context c cs
after_signal (finished uri n length) c cs = without_context c.download cs

abbrev delivered : Option DownloadContext → Signal → Owner → Owner
delivered none s o = o
delivered (some c) s o =
    let h = handle s c o.store in
    record o {
      app = announce s c o.app;
      store = h.1;
      active_downloads = after_signal s h.0 o.active_downloads;
    }

unfoldable pub deliver : ℕ → Signal → Owner → Owner
unfolding find_context set_context without_context announce
deliver download s o = delivered (find_context (λ c. c.download == download) o.active_downloads) s o

abbrev cancelled_in : Option DownloadContext → ℕ → Owner → Owner
cancelled_in none id o = o
cancelled_in (some c) id o = record o {
  store =
      if c.private_mode then o.store else (update_download true id (codes "cancelled") o.store).0;
  active_downloads = set_context (record c { cancelled = true }) o.active_downloads;
}

-- WebKit is asked to cancel the download that was found.
unfoldable pub cancel_download : ℕ → Owner → Owner
unfolding find_context set_context
cancel_download id o = cancelled_in (find_context (λ c. c.record_id == id) o.active_downloads) id o

-- The signals of one download.
unfoldable pub handle_all :
    List Signal → DownloadContext → UserDataStore → DownloadContext × UserDataStore
handle_all [] c d = (c, d)
handle_all (s ∷ ss) c d = let h = handle s c d in handle_all ss h.0 h.1
