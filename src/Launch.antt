-- ===== src/Launch.antt =====
-- src/launch_options.h and src/launch_options.cpp: the parser of the command line. The flag
-- `waiting` says that the previous argument was `--app`, whose value this one is: the source moves
-- its index forward there instead.
pub mod Laws
pub mod Tests
use vant.Prelude.{
  ℕ, suc, Bool, true, false, not, ◌&&◌, ◌||◌, List, [], ◌∷◌, ◌++◌, Option, none, some, drop, ◌==◌,
  if◌then◌else◌, Bytes, codes, bytes_eq,
}
use vant.Strings.{is_alpha, is_alnum, is_empty, contains, until, starts_with}

pub record NativeLaunchOptions : Type 0 where
  pub smoke : Bool
  pub fullscreen : Bool
  pub app_mode : Bool
  pub private_mode : Bool
  pub tab_probe : Bool
  pub initial_uri : Bytes

pub record LaunchOptionsParse : Type 0 where
  pub options : NativeLaunchOptions
  pub rendering_override : Option Bool
  pub valid : Bool
  pub error : Bytes

unfoldable pub default_options : NativeLaunchOptions
default_options = record {
  smoke = false;
  fullscreen = false;
  app_mode = false;
  private_mode = false;
  tab_probe = false;
  initial_uri = codes "vantage:new";
}

unfoldable pub default_parse : LaunchOptionsParse
unfolding default_options
default_parse = record {
  options = default_options;
  rendering_override = none;
  valid = true;
  error = [];
}

abbrev pub is_text : Bytes → Bytes → Bool
is_text = bytes_eq

-- The loop over the scheme's characters behind the first.
unfoldable pub scheme_rest : Bytes → Bool
scheme_rest [] = true
scheme_rest (c ∷ s) = (is_alnum c || c == b'+' || c == b'-' || c == b'.') && scheme_rest s

abbrev pub has_scheme : Bytes → Bool
has_scheme [] = false
has_scheme (c ∷ s) = is_alpha c && scheme_rest s

unfoldable pub is_launch_target : Bytes → Bool
is_launch_target argument =
    if is_empty argument
    then false
    else if starts_with (codes "/") argument
        || starts_with (codes "./") argument
        || starts_with (codes "../") argument
    then true
    else if is_text argument (codes "localhost") || starts_with (codes "localhost:") argument
    then true
    else if contains b'.' argument && not (contains b' ' argument)
    then true
    else contains b':' argument && has_scheme (until b':' argument)

unfoldable pub invalidate : LaunchOptionsParse → Bytes → LaunchOptionsParse
invalidate result message = record result { valid = false; error = message }

-- How a round of the loop goes on: with the next argument, with the value of `--app`, or not at all.
pub data Next : Type 0 where
  carry_on : LaunchOptionsParse → Bool → Next
  wait_value : LaunchOptionsParse → Next
  stop : LaunchOptionsParse → Next

abbrev pub requires_url : Bytes
requires_url = codes "--app requires a URL"

abbrev pub unknown_address : Bytes → Bytes
unknown_address argument = codes "unknown command or address: " ++ argument

unfoldable pub open_app : LaunchOptionsParse → Bytes → Next
open_app result uri =
    if not (is_launch_target uri)
    then stop (invalidate result (unknown_address uri))
    else carry_on
        (record result { options = record result.options { app_mode = true; initial_uri = uri } })
        true

-- The value behind `--app`.
unfoldable pub on_app_value : LaunchOptionsParse → Bytes → Next
on_app_value result argument =
    if is_empty argument || starts_with (codes "-") argument
    then stop (invalidate result requires_url)
    else open_app result argument

unfoldable pub on_other : LaunchOptionsParse → Bool → Bytes → Next
on_other result have_uri argument =
    if not (starts_with (codes "-") argument) && not have_uri && is_launch_target argument
    then carry_on (record result { options = record result.options { initial_uri = argument } })
        true
    else stop (
        invalidate result (
          if starts_with (codes "-") argument
          then codes "unknown option: " ++ argument
          else if have_uri
          then codes "unexpected argument: " ++ argument
          else unknown_address argument))

unfoldable pub on_argument : LaunchOptionsParse → Bool → Bytes → Next
on_argument result have_uri argument =
    if is_text argument (codes "--compatibility-video-rendering")
      || is_text argument (codes "--fix-broken-video")
    then carry_on (record result { rendering_override = some true }) have_uri
    else if is_text argument (codes "--accelerated-video-rendering")
    then carry_on (record result { rendering_override = some false }) have_uri
    else if is_text argument (codes "--fullscreen")
    then carry_on (record result { options = record result.options { fullscreen = true } }) have_uri
    else if is_text argument (codes "--private")
    then carry_on (record result { options = record result.options { private_mode = true } })
        have_uri
    else if is_text argument (codes "--app")
    then (if have_uri then stop (invalidate result requires_url) else wait_value result)
    else if starts_with (codes "--app=") argument
    then (if have_uri || is_empty (drop 6 argument)
        then stop (invalidate result requires_url)
        else open_app result (drop 6 argument))
    else on_other result have_uri argument

-- The test behind the loop.
unfoldable pub finish : LaunchOptionsParse → LaunchOptionsParse
finish result =
    if result.options.app_mode && result.options.private_mode
    then invalidate result (codes "--app and --private cannot be used together")
    else result

unfoldable pub parse_loop : List Bytes → Bool → LaunchOptionsParse → Bool → LaunchOptionsParse
parse_loop [] true result have_uri = invalidate result requires_url
parse_loop [] false result have_uri = finish result
parse_loop (a ∷ rest) waiting result have_uri =
    elim (if waiting then on_app_value result a else on_argument result have_uri a) [
      | carry_on r h ↦ parse_loop rest false r h
      | wait_value r ↦ parse_loop rest true r have_uri
      | stop r ↦ r
    ]

unfoldable pub parse_launch_options : List Bytes → LaunchOptionsParse
parse_launch_options arguments = parse_loop arguments false default_parse false
