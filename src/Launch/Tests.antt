-- ===== src/Launch/Tests.antt =====
-- Runs of the parser, and its theorem at a concrete command line.
use vant.Prelude.{◌≡◌, refl, false, [], ◌∷◌, List, Bytes, codes, bytes_eq}
use vant.Strings.{is_empty, contains, starts_with}
use vant.Launch.{
  parse_launch_options, parse_loop, default_parse, on_argument, on_app_value, on_other, open_app,
  finish, invalidate, is_launch_target,
}
use vant.Launch.Laws.{Result, parse_launch_options-Result}

abbrev app_line : List Bytes
app_line = codes "--fullscreen" ∷ codes "--app" ∷ codes "nift.dev" ∷ []

parse-app_line : (parse_launch_options app_line).options.initial_uri ≡ codes "nift.dev"
unfolding parse_launch_options parse_loop default_parse on_argument on_app_value on_other open_app
    finish is_launch_target bytes_eq is_empty contains starts_with
parse-app_line = refl

parse-app_alone : (parse_launch_options (codes "--app" ∷ [])).valid ≡ false
unfolding parse_launch_options parse_loop default_parse on_argument on_app_value on_other open_app
    finish is_launch_target bytes_eq is_empty contains starts_with invalidate
parse-app_alone = refl

parse_launch_options-Result_example : Result (parse_launch_options app_line)
parse_launch_options-Result_example = parse_launch_options-Result app_line
