-- ===== src/Program.antt =====
-- src/main.cpp: what `vant` does with its command line. A process is what it finds and leaves: the
-- preferences files, the environment, the count of applications and what it printed. The agent's
-- command line and the window program are entered by its last calls, which are `Finish`.
pub mod Laws
pub mod Settings
pub mod Tests
use vant.Prelude.{
  ℕ, Bool, true, false, not, ◌&&◌, ◌||◌, List, [], ◌∷◌, ◌++◌, Option, none, some, ◌==◌,
  if◌then◌else◌, Bytes, codes, bytes_eq,
}
use vant.Strings.{is_empty}
use vant.Application
use vant.Application.{Application, start}
use vant.Launch.{NativeLaunchOptions, LaunchOptionsParse, default_options, parse_launch_options}
use vant.Preferences.{Values, compatibility_video_rendering, set_compatibility_video_rendering}
use vant.Preferences.File.{
  Files, System, Variables, read_preferences, write_preferences, preferences_path,
  apply_video_rendering_environment,
}

-- What is written to a stream. `failure` is `vant: ` and the text of an exception.
pub data Printed : Type 0 where
  out : Bytes → Printed
  err : Bytes → Printed
  failure : Printed

pub record Process : Type 0 where
  pub files : Files
  pub variables : Variables
  pub live_instances : ℕ
  pub printed : List Printed

-- `exit` is the code that `main` returns, the others what it returns the result of.
pub data Finish : Type 0 where
  exit : ℕ → Finish
  run_native : NativeLaunchOptions → Finish
  run_agent_cli : List Bytes → Finish

unfoldable pub print : Printed → Process → Process
print line p = record p { printed = p.printed ++ line ∷ [] }

unfoldable pub usage : Bytes
usage =
    codes "usage: vant [URL]\n"
    ++ codes
        "       vant [--fullscreen] [--compatibility-video-rendering|--accelerated-video-rendering] [URL]\n"
    ++ codes "       vant --private [URL]\n"
    ++ codes "       vant --app URL [--fullscreen]\n"
    ++ codes "       vant --app=URL [--fullscreen]\n"
    ++ codes "       vant settings video-rendering [compatibility|accelerated]\n"
    ++ codes "       vant agent <status|version|capabilities|call> ...\n"
    ++ codes
        "       vant [--headless-smoke|--native-probe|--native-smoke|--tab-sizing-probe|--version|--help]\n"

unfoldable pub version : Bytes
version = codes "0.1.11"

abbrev pub path_known : Variables → Bool
path_known variables = elim (preferences_path variables) [ none ↦ false | some path ↦ true ]

-- `compatibility_video_rendering()`; `none` is an exception.
unfoldable pub stored_rendering : Process → Option Bool
stored_rendering p =
    if path_known p.variables
    then some (compatibility_video_rendering (read_preferences p.files))
    else none

-- `set_compatibility_video_rendering(enabled)`, and whether it returns.
unfoldable pub store_rendering : System → Bool → Process → Process × Bool
store_rendering system enabled p =
    if path_known p.variables
    then (let (files, returns) =
          write_preferences system
            (set_compatibility_video_rendering enabled (read_preferences p.files)) p.files in
        (record p { files = files }, returns))
    else (p, false)

abbrev rendering_name : Bool → Bytes
rendering_name enabled = if enabled then codes "compatibility" else codes "accelerated"

unfoldable pub set_rendering : System → Bool → Process → Process × Finish
unfolding print
set_rendering system enabled p =
    let (stored, returns) = store_rendering system enabled p in
    if returns
    then (
      print
          (out (
            codes "Video rendering set to "
            ++ rendering_name enabled
            ++ codes ". The setting applies the next time Vantage opens.\n"))
          stored,
      exit 0,
    )
    else (print failure stored, exit 1)

-- The arguments behind `settings`.
unfoldable pub settings : System → List Bytes → Process → Process × Finish
unfolding print set_rendering
settings system (what ∷ mode ∷ []) p =
    if not (bytes_eq what (codes "video-rendering"))
      || not (bytes_eq mode (codes "compatibility")) && not (bytes_eq mode (codes "accelerated"))
    then (print (err usage) p, exit 2)
    else set_rendering system (bytes_eq mode (codes "compatibility")) p
settings system [] p = (print (err usage) p, exit 2)
settings system (what ∷ []) p = (print (err usage) p, exit 2)
settings system (what ∷ mode ∷ more ∷ rest) p = (print (err usage) p, exit 2)

abbrev smoke_result : Option (Application × ℕ) → Process → Process × Finish
smoke_result none p = (p, exit 1)
smoke_result (some (app, live)) p =
    let (gone, left) = Application.destroy (Application.stop (start app)) live in
    (record p { live_instances = left }, exit (if live == 1 then 0 else 1))

unfoldable pub headless_smoke : Process → Process × Finish
headless_smoke p = smoke_result (Application.create (codes "default") p.live_instances) p

-- `launch.rendering_override.value_or(...)`, whose argument is evaluated first.
abbrev pub value_or : Option Bool → Bool → Bool
value_or none b = b
value_or (some a) b = a

abbrev run_in : NativeLaunchOptions → Process → Variables × Bool → Process × Finish
run_in options p (variables, returns) =
    if returns
    then (record p { variables = variables }, run_native options)
    else (print failure (record p { variables = variables }), exit 1)

abbrev apply_rendering : System → LaunchOptionsParse → Process → Option Bool → Process × Finish
apply_rendering system launch p none = (print failure p, exit 1)
apply_rendering system launch p (some b) =
    run_in launch.options p
      (apply_video_rendering_environment system (value_or launch.rendering_override b) p.variables)

-- The browser, where no other mode is asked for.
unfoldable pub browse : System → LaunchOptionsParse → Process → Process × Finish
unfolding print
browse system launch p =
    if not launch.valid
    then (
      print (err usage) (
          if is_empty launch.error
          then p
          else print (err (codes "vant: " ++ launch.error ++ codes "\n")) p),
      exit 2,
    )
    else apply_rendering system launch p (stored_rendering p)

abbrev pub first_is : Bytes → List Bytes → Bool
first_is name [] = false
first_is name (a ∷ rest) = bytes_eq a name

abbrev pub only_is : Bytes → List Bytes → Bool
only_is name [] = false
only_is name (a ∷ []) = bytes_eq a name
only_is name (a ∷ b ∷ rest) = false

abbrev pub rest_of : List Bytes → List Bytes
rest_of [] = []
rest_of (a ∷ rest) = rest

-- `main` with the arguments behind the program's name; `versions` is the text of `native_versions`.
unfoldable pub main : System → Bytes → List Bytes → Process → Process × Finish
unfolding print
main system versions arguments p =
    if first_is (codes "agent") arguments
    then (p, run_agent_cli (rest_of arguments))
    else if first_is (codes "settings") arguments
    then settings system (rest_of arguments) p
    else if only_is (codes "--version") arguments
    then (print (out (codes "Vantage Browser " ++ version ++ codes "\n")) p, exit 0)
    else if only_is (codes "--help") arguments
    then (print (out usage) p, exit 0)
    else if only_is (codes "--headless-smoke") arguments
    then headless_smoke p
    else if only_is (codes "--native-smoke") arguments
    then (p, run_native (record default_options { smoke = true }))
    else if only_is (codes "--tab-sizing-probe") arguments
    then (p, run_native (record default_options { tab_probe = true }))
    else if only_is (codes "--native-probe") arguments
    then (print (out (versions ++ codes "\n")) p, exit 0)
    else browse system (parse_launch_options arguments) p
