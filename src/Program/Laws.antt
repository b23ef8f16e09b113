-- ===== src/Program/Laws.antt =====
-- How main.cpp ends: what it enters the browser with, and what a refused command line leaves alone.
use vant.Prelude.{
  ◌≡◌, ◌≢◌, ◌⊎◌, inl, inr, Bool, true, false, ◌&&◌, List, [], ◌∷◌, some, arith, Bytes, codes, ap,
  bytes_eq_iff, Bool-cases, Option-cases,
}
use vant.Launch.{NativeLaunchOptions, LaunchOptionsParse, default_options, parse_launch_options}
use vant.Launch.Laws.{parse_launch_options-Result}
use vant.Preferences.File.{System, apply_video_rendering_environment}
use vant.Strings.{is_empty}
use vant.Application.{create, start, stop, destroy}
use vant.Program.{
  Process, exit, run_native, stored_rendering, rest_of, settings, headless_smoke, value_or, browse,
  main, only_is,
}

-- The browser is entered with the options of a valid command line.
pub record Launched (system : System) (launch : LaunchOptionsParse) (p q : Process) : Type 0 where
  pub is_valid : launch.valid ≡ true
  pub stored :
      (b : Bool) × (stored_rendering p ≡ some b)
      × (apply_video_rendering_environment system (value_or launch.rendering_override b) p.variables
          ≡ (q.variables, true))
  pub same_files : q.files ≡ p.files
  pub same_printed : q.printed ≡ p.printed

browse-run_native :
    (system : System) (launch : LaunchOptionsParse) (p q : Process) (o : NativeLaunchOptions)
    → browse system launch p ≡ (q, run_native o)
    → (o ≡ launch.options) × Launched system launch p q
unfolding browse
browse-run_native system launch p q o e = elim (Bool-cases launch.valid) [
  | inl v ↦ elim (Option-cases (stored_rendering p)) [
    | inl miss ↦ ground arith
    | inr (b, found) ↦
        elim (Bool-cases
          (apply_video_rendering_environment system (value_or launch.rendering_override b)
            p.variables).1) [
              | inl ok ↦ (
                ground arith,
                record {
                  is_valid = v;
                  stored = (b, found, ground arith);
                  same_files = ground arith;
                  same_printed = ground arith;
                },
              )
              | inr bad ↦ ground arith
            ]
  ]
  | inr v ↦ ground arith
]

settings-ne-run_native :
    (system : System) (arguments : List Bytes) (p : Process) (o : NativeLaunchOptions)
    → (settings system arguments p).1 ≢ run_native o
unfolding settings
settings-ne-run_native system [] p o = ground arith
settings-ne-run_native system (a ∷ []) p o = ground arith
settings-ne-run_native system (a ∷ b ∷ []) p o = ground arith
settings-ne-run_native system (a ∷ b ∷ c ∷ rest) p o = ground arith

headless_smoke-ne-run_native :
    (p : Process) (o : NativeLaunchOptions) → (headless_smoke p).1 ≢ run_native o
unfolding headless_smoke
headless_smoke-ne-run_native p o = ground arith

only_is-singleton :
    (name : Bytes) (arguments : List Bytes) → only_is name arguments ≡ true → arguments ≡ name ∷ []
only_is-singleton name [] h = ground (arith, h)
only_is-singleton name (a ∷ []) h = ap (λ t. t ∷ []) ((bytes_eq_iff a name).0 h)
only_is-singleton name (a ∷ b ∷ rest) h = ground (arith, h)

-- The browser is entered only for the command line `--native-smoke` or `--tab-sizing-probe` alone,
-- with the default options but for that probe's, and the process untouched; or for a valid command
-- line, with its options, which do not ask for an application and privacy at once, the environment
-- changed for the rendering that the command line or, without one, the preferences ask for, and the
-- files as they were.
pub main-run_native :
    (system : System) (versions : Bytes) (arguments : List Bytes) (p q : Process)
    (o : NativeLaunchOptions)
    → main system versions arguments p ≡ (q, run_native o)
    → ((q ≡ p)
        × (((o ≡ record default_options { smoke = true })
              × (arguments ≡ codes "--native-smoke" ∷ []))
            ⊎ ((o ≡ record default_options { tab_probe = true })
                × (arguments ≡ codes "--tab-sizing-probe" ∷ []))))
      ⊎ ((o ≡ (parse_launch_options arguments).options)
          × ((o.app_mode && o.private_mode) ≡ false)
          × Launched system (parse_launch_options arguments) p q)
unfolding main
main-run_native system versions arguments p q o e = ground (
  arith,
  only_is-singleton (codes "--native-smoke") arguments,
  only_is-singleton (codes "--tab-sizing-probe") arguments,
  settings-ne-run_native system (rest_of arguments) p o,
  headless_smoke-ne-run_native p o,
  browse-run_native system (parse_launch_options arguments) p q o,
  (parse_launch_options-Result arguments).exclusive,
)

-- What a process has besides what it printed.
abbrev SameBut : Process → Process → Type 0
SameBut p q =
    (q.files ≡ p.files) × (q.variables ≡ p.variables) × (q.live_instances ≡ p.live_instances)

settings-usage :
    (system : System) (arguments : List Bytes) (p q : Process)
    → settings system arguments p ≡ (q, exit 2)
    → SameBut p q
unfolding settings
settings-usage system [] p q e = ground arith
settings-usage system (a ∷ []) p q e = ground arith
settings-usage system (a ∷ b ∷ []) p q e = ground arith
settings-usage system (a ∷ b ∷ c ∷ rest) p q e = ground arith

browse-usage :
    (system : System) (launch : LaunchOptionsParse) (p q : Process)
    → browse system launch p ≡ (q, exit 2)
    → (launch.valid ≡ false) × SameBut p q
unfolding browse
browse-usage system launch p q e = elim (Option-cases (stored_rendering p)) [
  | inl miss ↦ ground arith
  | inr (b, found) ↦ ground arith
]

headless_smoke-ne-usage : (p : Process) → (headless_smoke p).1 ≢ exit 2
unfolding headless_smoke
headless_smoke-ne-usage p = ground arith

-- A command line that ends with the code 2, a refused one, has changed no file, no variable of the
-- environment and no count of applications.
pub main-usage :
    (system : System) (versions : Bytes) (arguments : List Bytes) (p q : Process)
    → main system versions arguments p ≡ (q, exit 2)
    → SameBut p q
unfolding main
main-usage system versions arguments p q e = ground (
  arith,
  settings-usage system (rest_of arguments) p q,
  headless_smoke-ne-usage p,
  browse-usage system (parse_launch_options arguments) p q,
)

-- The smoke run in a process without applications ends with 0 and leaves none.
headless_smoke-balanced : (p : Process) → p.live_instances ≡ 0 → headless_smoke p ≡ (p, exit 0)
unfolding headless_smoke create start stop destroy is_empty
headless_smoke-balanced p h = ground arith
