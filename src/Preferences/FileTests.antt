-- ===== src/Preferences/FileTests.antt =====
-- The preferences file and the environment at concrete values.
use vant.Prelude.{◌≡◌, refl, true, false, [], ◌∷◌, none, some, codes, bytes_eq}
use vant.Strings.{is_empty, cut, contains, ends_with_byte}
use vant.Preferences.{Values, bytes_lt, assign, lookup, dark_mode_enabled_for_domain}
use vant.Preferences.File.{
  System, Files, Variables, read_preferences, read_lines, store_line, write_preferences,
  disable_dmabuf, join_path, preferences_path,
}
use vant.Preferences.DarkMode.{set_dark_mode_enabled_for_domain, dark_mode-set}
use vant.Preferences.RoundTrip.{write_preferences-thrown}

abbrev working : System
working = record {
  creates_directories = true;
  opens = true;
  flushes = true;
  written = [];
  renames = true;
  changes = λ name. true;
}

abbrev full_disk : System
full_disk = record working { flushes = false; written = codes "a=" }

abbrev old_files : Files
old_files = record { preferences = some (codes "b=2\nnonsense\na=1"); temporary = none }

abbrev values : Values
values = (codes "a", codes "1") ∷ (codes "b", codes "2=") ∷ []

read-old_files : read_preferences old_files ≡ (codes "a", codes "1") ∷ (codes "b", codes "2") ∷ []
unfolding read_preferences read_lines store_line cut is_empty assign bytes_lt bytes_eq
read-old_files = refl

path_in_home :
    preferences_path ((codes "HOME", codes "/home/v") ∷ [])
    ≡ some (codes "/home/v/.config/vantage-browser/preferences.conf")
unfolding preferences_path join_path lookup bytes_eq is_empty ends_with_byte
path_in_home = refl

write_preferences-thrown_example :
    read_preferences (write_preferences full_disk values old_files).0 ≡ read_preferences old_files
unfolding write_preferences
write_preferences-thrown_example = write_preferences-thrown full_disk values old_files refl

abbrev before : Variables
before = (codes "PATH", codes "/bin") ∷ (disable_dmabuf, codes "1") ∷ []

-- Dark mode for two domains, as an older release wrote it.
abbrev dark_files : Files
dark_files = record {
  preferences = some (codes "dark_mode=1\ndark_mode_enabled_domains=b.org|a.org\n");
  temporary = none;
}

dark_mode-set_example :
    dark_mode_enabled_for_domain
      (read_preferences
        (set_dark_mode_enabled_for_domain working
          ((codes "HOME", codes "/home/v") ∷ [])
          (codes "a.org")
          false
          dark_files).0)
      (codes "a.org")
    ≡ false
unfolding set_dark_mode_enabled_for_domain preferences_path join_path lookup bytes_eq is_empty
    ends_with_byte contains write_preferences
dark_mode-set_example =
    dark_mode-set working ((codes "HOME", codes "/home/v") ∷ []) (codes "a.org") false dark_files
      (codes "a.org") (refl, refl) refl
