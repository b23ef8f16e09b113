-- ===== src/Preferences/DarkMode.antt =====
-- Dark mode by domain, through the file of preferences.cpp.
use vant.Prelude.{
  ◌≡◌, refl, ap, ◌∙◌, inl, inr, Bool, true, false, not, ◌&&◌, ◌||◌, List, [], ◌∷◌, ◌++◌, Option,
  none, some, arith, if◌then◌else◌, Bytes, codes, bytes_eq, All, Bool-cases, Option-cases,
}
use vant.Strings.{is_empty, contains, contains-append}
use vant.Preferences.{
  Values, lookup, erase, domains_key, split_parts, split_domains, join_onto, join_domains,
  update_domains, dark_mode_enabled_domains, dark_mode_enabled_for_domain, with_domain,
}
use vant.Preferences.File.{
  Files, System, Variables, read_preferences, write_preferences, preferences_path,
}
use vant.Preferences.Domains.{IsDomain, sort-All, unique-All, update-All}
use vant.Preferences.Maps.{assign-IsMap, erase-IsMap}
use vant.Preferences.RoundTrip.{
  IsLine, IsStored, read_preferences-IsStored, read-write_preferences, write_preferences-thrown,
  All-assign,
}
use vant.Preferences.Settings.{dark_mode-with_domain}

abbrev is_located : Option Bytes → Bool
is_located none = false
is_located (some path) = true

-- The whole call: the files after it, and whether it returns. It throws where the preferences have no
-- place, or they cannot be written.
unfoldable pub set_dark_mode_enabled_for_domain :
    System → Variables → Bytes → Bool → Files → Files × Bool
set_dark_mode_enabled_for_domain system variables domain enabled files =
    if is_empty domain || contains b'|' domain
    then (files, true)
    else if not (is_located (preferences_path variables))
    then (files, false)
    else write_preferences system (with_domain domain enabled (read_preferences files)) files

-- Without a line end.
abbrev pub IsUnbroken : Bytes → Type 0
IsUnbroken s = contains b'\n' s ≡ false

append-IsUnbroken : (a b : Bytes) → IsUnbroken a → IsUnbroken b → IsUnbroken (a ++ b)
append-IsUnbroken a b h k = contains-append b'\n' a b ∙ ground (arith, h, k)

split_parts-IsUnbroken :
    (s cur : Bytes) → IsUnbroken s → IsUnbroken cur → All IsUnbroken (split_parts s cur)
unfolding split_parts contains
split_parts-IsUnbroken [] cur h k = ground arith
split_parts-IsUnbroken (c ∷ s) cur h k = ground (
  arith,
  append-IsUnbroken cur (c ∷ []) k,
  split_parts-IsUnbroken s [],
  split_parts-IsUnbroken s (cur ++ c ∷ []),
)

split_domains-IsUnbroken : (s : Bytes) → IsUnbroken s → All IsUnbroken (split_domains s)
unfolding split_domains
split_domains-IsUnbroken s h =
    unique-All IsUnbroken _
      (sort-All IsUnbroken _ (split_parts-IsUnbroken s [] h (unfold contains in refl)))

join_onto-IsUnbroken :
    (ds : List Bytes) (r : Bytes) → IsUnbroken r → All IsUnbroken ds → IsUnbroken (join_onto r ds)
unfolding join_onto
join_onto-IsUnbroken [] r h k = h
join_onto-IsUnbroken (d ∷ ds) r h k =
    let bar : IsUnbroken (r ++ b'|' ∷ []) =
      append-IsUnbroken r (b'|' ∷ []) h (unfold contains in refl) in
    join_onto-IsUnbroken ds _
      (append-IsUnbroken (if is_empty r then r else r ++ b'|' ∷ []) d (ground (arith, h, bar)) k.0)
      k.1

lookup-IsUnbroken :
    (key v : Bytes) (m : Values) → All IsLine m → lookup key m ≡ some v → IsUnbroken v
unfolding lookup
lookup-IsUnbroken key v [] h e = ground (arith, e)
lookup-IsUnbroken key v ((j, w) ∷ m) h e = ground (arith, lookup-IsUnbroken key v m h.1)

domains-IsUnbroken : (m : Values) → All IsLine m → All IsUnbroken (dark_mode_enabled_domains m)
unfolding dark_mode_enabled_domains
domains-IsUnbroken m h = elim (Option-cases (lookup domains_key m)) [
  | inl miss ↦ rw miss tt
  | inr (v, found) ↦
      rw found (split_domains-IsUnbroken v (lookup-IsUnbroken domains_key v m h found))
]

erase-IsLine : (key : Bytes) (m : Values) → All IsLine m → All IsLine (erase key m)
unfolding erase
erase-IsLine key [] h = tt
erase-IsLine key ((j, w) ∷ m) h = ground (arith, erase-IsLine key m h.1)

erase-IsStored : (key : Bytes) (m : Values) → IsStored m → IsStored (erase key m)
erase-IsStored key m h = (erase-IsMap key m h.0, erase-IsLine key m h.1)

domains-IsLine : (v : Bytes) → IsUnbroken v → IsLine (domains_key, v)
unfolding contains
domains-IsLine v h = (refl, refl, h)

with_domain-IsStored :
    (domain : Bytes) (enabled : Bool) (m : Values)
    → IsUnbroken domain
    → IsStored m
    → IsStored (with_domain domain enabled m)
unfolding with_domain join_domains
with_domain-IsStored domain enabled m h stored =
    let text = join_domains (update_domains enabled domain (dark_mode_enabled_domains m)) in
    let clean =
      join_onto-IsUnbroken _ [] (unfold contains in refl)
        (update-All IsUnbroken enabled domain _ h (domains-IsUnbroken m stored.1)) in
    elim (Bool-cases (is_empty domain || contains b'|' domain)) [
      | inl bad ↦ rw bad stored
      | inr good ↦ rw good (
          erase-IsStored (codes "dark_mode_disabled_domains") _ (
            erase-IsStored (codes "dark_mode") _ (
              assign-IsMap domains_key text m stored.0,
              All-assign domains_key text m (domains-IsLine text clean) stored.1,
            )))
    ]

-- The dark mode of a domain after the preferences were written with it, as the next reader of the file
-- finds it.
written :
    (system : System) (domain : Bytes) (enabled : Bool) (files : Files) (d : Bytes)
    → IsDomain domain
    → IsUnbroken domain
    → let old = read_preferences files in
      let (after, returns) = write_preferences system (with_domain domain enabled old) files in
      dark_mode_enabled_for_domain (read_preferences after) d
      ≡ (if returns && bytes_eq domain d then enabled else dark_mode_enabled_for_domain old d)
written system domain enabled files d h k =
    let old = read_preferences files in
    let new = with_domain domain enabled old in
    let stored = with_domain-IsStored domain enabled old k (read_preferences-IsStored files) in
    elim (Bool-cases (write_preferences system new files).1) [
      | inl returns ↦ rw returns (
          ap (λ m. dark_mode_enabled_for_domain m d)
            (read-write_preferences system new files stored returns)
          ∙ dark_mode-with_domain domain enabled old d h)
      | inr throws ↦ rw throws (
          ap (λ m. dark_mode_enabled_for_domain m d)
            (write_preferences-thrown system new files throws))
    ]

-- A domain that is not empty and has no `|` and no line end: after its dark mode was set, whatever
-- the file held, the next reader of the file finds it as it was set, and every other domain as it was
-- before, where the call returns; where it throws, the reader finds every domain as it was before.
pub dark_mode-set :
    (system : System) (variables : Variables) (domain : Bytes) (enabled : Bool) (files : Files)
    (d : Bytes)
    → IsDomain domain
    → IsUnbroken domain
    → let (after, returns) =
        set_dark_mode_enabled_for_domain system variables domain enabled files in
      dark_mode_enabled_for_domain (read_preferences after) d ≡ (
        if returns && bytes_eq domain d
        then enabled
        else dark_mode_enabled_for_domain (read_preferences files) d)
unfolding set_dark_mode_enabled_for_domain
dark_mode-set system variables domain enabled files d h k =
    elim (Bool-cases (is_located (preferences_path variables))) [
      | inl located ↦ rw (h.0, h.1, located) (written system domain enabled files d h k)
      | inr lost ↦ rw (h.0, h.1, lost)
    ]
