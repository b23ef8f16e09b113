-- ===== src/Preferences/File.antt =====
-- src/preferences.cpp: the preferences file and the environment. A file is its bytes; which calls of
-- the system succeed is the parameter `System`.
use vant.Prelude.{
  Bool, true, false, not, ◌||◌, [], ◌∷◌, ◌++◌, Option, none, some, ◌==◌, if◌then◌else◌, Bytes,
  codes,
}
use vant.Strings.{is_empty, cut, ends_with_byte}
use vant.Preferences.{Values, assign, lookup, erase}

-- A line with no `=` is left out.
abbrev pub store_cut : Option (Bytes × Bytes) → Values → Values
store_cut none values = values
store_cut (some (key, value)) values = assign key value values

unfoldable pub store_line : Bytes → Values → Values
store_line line values = store_cut (cut b'=' line) values

-- The loop over `std::getline`: `line` is what was read of the line.
unfoldable pub read_lines : Bytes → Bytes → Values → Values
read_lines [] line values = if is_empty line then values else store_line line values
read_lines (c ∷ s) line values =
    read_lines s (if c == b'\n' then [] else line ++ c ∷ [])
      (if c == b'\n' then store_line line values else values)

-- The preferences file, and the one that is written first, where they are there.
pub record Files : Type 0 where
  pub preferences : Option Bytes
  pub temporary : Option Bytes

-- Which calls succeed; a failing write leaves `written` behind.
pub record System : Type 0 where
  pub creates_directories : Bool
  pub opens : Bool
  pub flushes : Bool
  pub written : Bytes
  pub renames : Bool
  pub changes : Bytes → Bool

abbrev pub contents : Option Bytes → Bytes
contents none = []
contents (some text) = text

unfoldable pub read_preferences : Files → Values
unfolding read_lines
read_preferences files = read_lines (contents files.preferences) [] []

unfoldable pub print_values : Values → Bytes
print_values [] = []
print_values ((key, value) ∷ m) = key ++ b'=' ∷ (value ++ b'\n' ∷ print_values m)

-- The files after the call, and whether it returns; otherwise it throws.
unfoldable pub write_preferences : System → Values → Files → Files × Bool
unfolding print_values
write_preferences system values files =
    if not system.creates_directories || not system.opens
    then (files, false)
    else if not system.flushes
    then (record files { temporary = some system.written }, false)
    else if not system.renames
    then (record files { temporary = some (print_values values) }, false)
    else (record { preferences = some (print_values values); temporary = none }, true)

-- `a / b` of std::filesystem::path, for a `b` that does not start with a slash.
unfoldable pub join_path : Bytes → Bytes → Bytes
join_path a b = if is_empty a || ends_with_byte b'/' a then a ++ b else a ++ b'/' ∷ b

-- The process's environment.
abbrev pub Variables : Type 0
Variables = Values

abbrev set_and_filled : Option Bytes → Option Bytes
set_and_filled none = none
set_and_filled (some value) = if is_empty value then none else some value

abbrev pub variable : Bytes → Variables → Option Bytes
variable name variables = set_and_filled (lookup name variables)

abbrev home_config : Option Bytes → Option Bytes
home_config none = none
home_config (some home) = some (join_path home (codes ".config"))

abbrev or_else : Option Bytes → Option Bytes → Option Bytes
or_else none other = other
or_else (some value) other = some value

-- `none` is an exception.
unfoldable pub config_root : Variables → Option Bytes
unfolding join_path
config_root variables = or_else (variable (codes "VANT_CONFIG_HOME") variables) (
    or_else (variable (codes "XDG_CONFIG_HOME") variables)
      (home_config (variable (codes "HOME") variables)))

abbrev preferences_in : Option Bytes → Option Bytes
preferences_in none = none
preferences_in (some root) =
    some (join_path (join_path root (codes "vantage-browser")) (codes "preferences.conf"))

unfoldable pub preferences_path : Variables → Option Bytes
unfolding config_root join_path
preferences_path variables = preferences_in (config_root variables)

abbrev pub disable_dmabuf : Bytes
disable_dmabuf = codes "WEBKIT_DISABLE_DMABUF_RENDERER"

abbrev pub disable_sink : Bytes
disable_sink = codes "WEBKIT_GST_DMABUF_SINK_DISABLED"

abbrev pub disable_compositing : Bytes
disable_compositing = codes "WEBKIT_DISABLE_COMPOSITING_MODE"

-- The environment after the call, and whether it returns; otherwise it throws.
unfoldable pub apply_video_rendering_environment : System → Bool → Variables → Variables × Bool
apply_video_rendering_environment system true variables =
    if not (system.changes disable_dmabuf)
    then (variables, false)
    else if not (system.changes disable_sink)
    then (erase disable_dmabuf variables, false)
    else if not (system.changes disable_compositing)
    then (erase disable_sink (erase disable_dmabuf variables), false)
    else (
      assign disable_compositing (codes "1") (erase disable_sink (erase disable_dmabuf variables)),
      true,
    )
apply_video_rendering_environment system false variables =
    if not (system.changes disable_compositing)
    then (variables, false)
    else if not (system.changes disable_dmabuf)
    then (erase disable_compositing variables, false)
    else if not (system.changes disable_sink)
    then (erase disable_dmabuf (erase disable_compositing variables), false)
    else (
      assign disable_sink (codes "1") (erase disable_dmabuf (erase disable_compositing variables)),
      true,
    )
