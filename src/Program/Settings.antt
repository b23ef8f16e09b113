-- ===== src/Program/Settings.antt =====
-- From `vant settings` to the next start of the browser, main.cpp and preferences.cpp.
use vant.Prelude.{
  ◌≡◌, refl, Bool, true, [], ◌∷◌, none, some, arith, if◌then◌else◌, Bytes, codes, bytes_eq,
}
use vant.Launch.{LaunchOptionsParse}
use vant.Preferences.{lookup}
use vant.Preferences.File.{System, disable_compositing, apply_video_rendering_environment}
use vant.Preferences.Maps.{IsMap}
use vant.Preferences.RoundTrip.{video-next_start}
use vant.Preferences.Rendering.{AllWork, apply_video_rendering-Exclusive}
use vant.Program.{
  Process, exit, run_native, stored_rendering, store_rendering, set_rendering, settings, browse,
}

-- A setting that was stored is what the next process reads.
store-stored_rendering :
    (system : System) (enabled : Bool) (p : Process)
    → (store_rendering system enabled p).1 ≡ true
    → (stored_rendering (store_rendering system enabled p).0 ≡ some enabled)
      × ((store_rendering system enabled p).0.variables ≡ p.variables)
unfolding store_rendering stored_rendering
store-stored_rendering system enabled p h = ground (arith, video-next_start system enabled p.files)

stored_rendering_same :
    (p q : Process)
    → q.files ≡ p.files
    → q.variables ≡ p.variables
    → stored_rendering q ≡ stored_rendering p
unfolding stored_rendering
stored_rendering_same p q f v = rw (f, v) refl

set_rendering-stored :
    (system : System) (enabled : Bool) (p q : Process)
    → set_rendering system enabled p ≡ (q, exit 0)
    → (stored_rendering q ≡ some enabled) × (q.variables ≡ p.variables)
unfolding set_rendering
set_rendering-stored system enabled p q e = ground (
  arith,
  store-stored_rendering system enabled p,
  stored_rendering_same (store_rendering system enabled p).0 q,
)

settings-stored :
    (system : System) (mode : Bytes) (p q : Process)
    → settings system (codes "video-rendering" ∷ mode ∷ []) p ≡ (q, exit 0)
    → (stored_rendering q ≡ some (bytes_eq mode (codes "compatibility")))
      × (q.variables ≡ p.variables)
unfolding settings
settings-stored system mode p q e =
    ground (arith, set_rendering-stored system (bytes_eq mode (codes "compatibility")) p q)

-- After `vant settings video-rendering MODE` that ends with 0, and whatever the preferences held
-- before, a start with a valid command line that asks for no rendering enters the browser, if every
-- change of the environment succeeds, with compositing disabled exactly where MODE is
-- `compatibility`.
pub settings-browse :
    (system : System) (mode : Bytes) (p q : Process) (launch : LaunchOptionsParse)
    → settings system (codes "video-rendering" ∷ mode ∷ []) p ≡ (q, exit 0)
    → IsMap p.variables
    → AllWork system
    → launch.valid ≡ true
    → launch.rendering_override ≡ none
    → (r : Process) × (browse system launch q ≡ (r, run_native launch.options))
      × (lookup disable_compositing r.variables
          ≡ (if bytes_eq mode (codes "compatibility") then some (codes "1") else none))
unfolding browse bytes_eq
settings-browse system mode p q launch e map works valid free =
    let enabled = bytes_eq mode (codes "compatibility") in
    let kept = settings-stored system mode p q e in
    let applied = apply_video_rendering_environment system enabled p.variables in
    let laws =
      apply_video_rendering-Exclusive system enabled p.variables [] map works refl refl refl in
    (record q { variables = applied.0 }, ground (arith, kept, laws.0), laws.1)
