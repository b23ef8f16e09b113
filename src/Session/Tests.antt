-- ===== src/Session/Tests.antt =====
-- The theorems on the session store at a concrete session.
use vant.Prelude.{◌≡◌, ◌⊎◌, refl, true, false, [], ◌∷◌, some, none, codes}
use vant.Strings.{until}
use vant.Browser.{Tab, live}
use vant.Session.{Database, Sqlite, saved, thrown, save_tabs, insert_rows, load_tabs}
use vant.Session.Laws.{restored, load-save_tabs, save_tabs-stuck, database, left_open}

abbrev working : Sqlite
working = record {
  opens = true;
  begins = true;
  deletes = true;
  rolls_back = false;
  updates = true;
  prepares = true;
  steps = λ _. true;
  inserts = λ _. true;
  commits = true;
}

abbrev broken : Sqlite
broken = record working { commits = false }

abbrev one_tab : Tab
one_tab = record {
  id = 7;
  uri = codes "https://nift.dev";
  title = codes "Nift";
  loading = true;
  discarded = false;
  private_mode = false;
  audible = false;
  lifecycle = live;
}

abbrev before : Database
before = record { clean_shutdown = codes "1"; rows = []; in_transaction = false }

abbrev after : Database
after = record before {
  rows =
      record { position = 0; uri = codes "https://nift.dev"; title = codes "Nift"; active = true }
      ∷ [];
}

save-one : save_tabs working before (one_tab ∷ []) (some 7) ≡ saved after
unfolding save_tabs insert_rows until
save-one = refl

load-save_tabs_example : load_tabs working after ≡ some (restored 1 one_tab ∷ [])
load-save_tabs_example =
    load-save_tabs working before after (one_tab ∷ []) (some 7) refl (λ n. refl) save-one

save-broken : save_tabs broken after [] none ≡ thrown after
unfolding save_tabs insert_rows
save-broken = refl

abbrev busy : Sqlite
busy = record working { deletes = false }

save_tabs-stuck_example :
    let after = database (save_tabs busy before [] none) in
    ((left_open busy ≡ true) × (save_tabs working after (one_tab ∷ []) none ≡ thrown after))
    ⊎ ((left_open busy ≡ false) × (after.in_transaction ≡ false))
save_tabs-stuck_example = save_tabs-stuck busy working before [] (one_tab ∷ []) none none refl
