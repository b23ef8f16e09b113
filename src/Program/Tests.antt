-- ===== src/Program/Tests.antt =====
-- The theorems on main.cpp at concrete command lines.
use vant.Prelude.{
  ◌≡◌, refl, ◌⊎◌, true, false, ◌&&◌, if◌then◌else◌, [], ◌∷◌, none, some, codes, bytes_eq,
}
use vant.Strings.{is_empty}
use vant.Launch.{default_options, default_parse, parse_launch_options}
use vant.Preferences.{lookup}
use vant.Preferences.File.{System, disable_compositing, preferences_path, write_preferences}
use vant.Program.{
  Process, exit, run_native, err, usage, print, store_rendering, set_rendering, settings, browse,
  main,
}
use vant.Program.Laws.{Launched, main-run_native}
use vant.Program.Settings.{settings-browse}

abbrev working : System
working = record {
  creates_directories = true;
  opens = true;
  flushes = true;
  written = [];
  renames = true;
  changes = λ name. true;
}

abbrev fresh : Process
fresh = record {
  files = record { preferences = none; temporary = none };
  variables = (codes "HOME", codes "/home/v") ∷ [];
  live_instances = 0;
  printed = [];
}

smoke-run :
    main working [] (codes "--native-smoke" ∷ []) fresh
    ≡ (fresh, run_native (record default_options { smoke = true }))
unfolding main bytes_eq
smoke-run = refl

main-run_native_example :
    ((fresh ≡ fresh)
      × (((record default_options { smoke = true } ≡ record default_options { smoke = true })
            × (codes "--native-smoke" ∷ [] ≡ codes "--native-smoke" ∷ []))
          ⊎ ((record default_options { smoke = true } ≡ record default_options { tab_probe = true })
              × (codes "--native-smoke" ∷ [] ≡ codes "--tab-sizing-probe" ∷ []))))
    ⊎ ((record default_options { smoke = true }
          ≡ (parse_launch_options (codes "--native-smoke" ∷ [])).options)
        × (((record default_options { smoke = true }).app_mode
              && (record default_options { smoke = true }).private_mode)
            ≡ false)
        × Launched working (parse_launch_options (codes "--native-smoke" ∷ [])) fresh fresh)
main-run_native_example =
    main-run_native working [] (codes "--native-smoke" ∷ []) fresh fresh
      (record default_options { smoke = true }) smoke-run

refused : main working [] (codes "settings" ∷ []) fresh ≡ (print (err usage) fresh, exit 2)
unfolding main settings bytes_eq
refused = refl

abbrev stored : Process
stored = (settings working (codes "video-rendering" ∷ codes "compatibility" ∷ []) fresh).0

stored_lem :
    settings working (codes "video-rendering" ∷ codes "compatibility" ∷ []) fresh ≡ (stored, exit 0)
unfolding settings set_rendering store_rendering bytes_eq preferences_path lookup is_empty
    write_preferences
stored_lem = refl

settings-browse_example :
    (r : Process) × (browse working default_parse stored ≡ (r, run_native default_options))
    × (lookup disable_compositing r.variables ≡ (
        if bytes_eq (codes "compatibility") (codes "compatibility")
        then some (codes "1")
        else none))
unfolding default_parse
settings-browse_example =
    settings-browse working (codes "compatibility") fresh stored default_parse stored_lem (tt, tt)
      refl refl refl
