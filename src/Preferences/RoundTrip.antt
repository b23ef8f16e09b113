-- ===== src/Preferences/RoundTrip.antt =====
-- Reading back the preferences file that preferences.cpp writes.
use vant.Prelude.{
  ◌≡◌, refl, ap, sym, ◌∙◌, inl, inr, Bool, true, false, [], ◌∷◌, ◌++◌, arith, if◌then◌else◌,
  append_assoc, append-nil, Bytes, codes, All, All-append, Bool-cases, Option-cases, ◌==◌,
}
use vant.Strings.{contains, cut, cut-append, cut-some, contains-append, is_empty}
use vant.Preferences.{
  Values, bytes_lt, assign, video_key, compatibility_video_rendering,
  set_compatibility_video_rendering,
}
use vant.Preferences.File.{
  contents, store_line, read_lines, read_preferences, print_values, write_preferences, Files,
  System,
}
use vant.Preferences.Maps.{Over, IsMap, assign_last, assign-IsMap}
use vant.Preferences.Settings.{video-set}

-- What a line can hold: no line end, and no `=` in the key.
abbrev pub IsLine : Bytes × Bytes → Type 0
IsLine p = (contains b'=' p.0 ≡ false) × (contains b'\n' p.0 ≡ false) × (contains b'\n' p.1 ≡ false)

abbrev pub IsStored : Values → Type 0
IsStored m = IsMap m × All IsLine m

read_lines-text :
    (text rest line : Bytes) (values : Values)
    → contains b'\n' text ≡ false
    → read_lines (text ++ b'\n' ∷ rest) line values
      ≡ read_lines rest [] (store_line (line ++ text) values)
unfolding contains read_lines
read_lines-text [] rest line values h = rw append-nil refl
read_lines-text (c ∷ text) rest line values h =
    ground
      (arith, read_lines-text text rest (line ++ c ∷ []) values, append_assoc line (c ∷ []) text)

store_line-print :
    (key value : Bytes) (values : Values)
    → contains b'=' key ≡ false
    → store_line (key ++ b'=' ∷ value) values ≡ assign key value values
unfolding store_line
store_line-print key value values h = rw (cut-append b'=' key value h) refl

line_whole :
    (key value : Bytes) → IsLine (key, value) → contains b'\n' (key ++ b'=' ∷ value) ≡ false
line_whole key value h =
    rw (contains-append b'\n' key (b'=' ∷ value)) (unfold contains in ground arith)

-- Every key of `m` is below `k`.
abbrev Under : Bytes → Values → Type 0
Under k = All (λ (p : Bytes × Bytes). bytes_lt p.0 k ≡ true)

read_lines-print :
    (m done : Values)
    → IsStored m
    → All (λ (p : Bytes × Bytes). Under p.0 done) m
    → read_lines (print_values m) [] done ≡ done ++ m
unfolding print_values
read_lines-print [] done h above = unfold read_lines is_empty in sym (append-nil done)
read_lines-print ((key, value) ∷ m) done ((over, map), (line, lines)) (under, above) =
    let next = under_all key value m done over above in
    ap (λ t. read_lines t [] done) (sym (append_assoc key (b'=' ∷ value) (b'\n' ∷ print_values m)))
    ∙ read_lines-text (key ++ b'=' ∷ value) (print_values m) [] done (line_whole key value line)
    ∙ ap (read_lines (print_values m) [])
        (store_line-print key value done line.0 ∙ assign_last key value done under)
    ∙ read_lines-print m (done ++ (key, value) ∷ []) (map, lines) next
    ∙ append_assoc done ((key, value) ∷ []) m
  where
    under_all :
        (k v : Bytes) (ps done : Values)
        → Over k ps
        → All (λ (p : Bytes × Bytes). Under p.0 done) ps
        → All (λ (p : Bytes × Bytes). Under p.0 (done ++ (k, v) ∷ [])) ps
    under_all k v [] done over above = tt
    under_all k v (p ∷ ps) done over above = (
      All-append (λ (q : Bytes × Bytes). bytes_lt q.0 p.0 ≡ true) done ((k, v) ∷ []) above.0
          (over.0, tt),
      under_all k v ps done over.1 above.1,
    )

Under-nil : (m : Values) → All (λ (p : Bytes × Bytes). Under p.0 []) m
Under-nil [] = tt
Under-nil (p ∷ m) = (tt, Under-nil m)

-- Preferences that fit into lines are read back as they were written, where the write returns.
pub read-write_preferences :
    (system : System) (values : Values) (files : Files)
    → IsStored values
    → (write_preferences system values files).1 ≡ true
    → read_preferences (write_preferences system values files).0 ≡ values
unfolding read_preferences write_preferences
read-write_preferences system values files h returns =
    ground (arith, read_lines-print values [] h (Under-nil values))

-- A write that throws leaves the preferences as they were.
pub write_preferences-thrown :
    (system : System) (values : Values) (files : Files)
    → (write_preferences system values files).1 ≡ false
    → read_preferences (write_preferences system values files).0 ≡ read_preferences files
unfolding read_preferences write_preferences
write_preferences-thrown system values files h = ground arith

pub All-assign :
    (k v : Bytes) (m : Values) → IsLine (k, v) → All IsLine m → All IsLine (assign k v m)
unfolding assign
All-assign k v [] h all = (h, tt)
All-assign k v ((j, w) ∷ m) h all = ground (arith, All-assign k v m h all.1)

store_line-IsStored :
    (line : Bytes) (m : Values)
    → contains b'\n' line ≡ false
    → IsStored m
    → IsStored (store_line line m)
unfolding store_line
store_line-IsStored line m h stored = elim (Option-cases (cut b'=' line)) [
  | inl miss ↦ rw miss stored
  | inr ((key, value), found) ↦
      let parts = cut-some b'=' line key value found in
      let free =
        sym (contains-append b'\n' key (b'=' ∷ value)) ∙ ap (contains b'\n') (sym parts.0) ∙ h in
      let clean : IsLine (key, value) = (
        parts.1,
        unfold contains in ground (arith, free),
        unfold contains in ground (arith, free),
      ) in
      rw found (assign-IsMap key value m stored.0, All-assign key value m clean stored.1)
]

read_lines-IsStored :
    (text line : Bytes) (m : Values)
    → contains b'\n' line ≡ false
    → IsStored m
    → IsStored (read_lines text line m)
unfolding read_lines
read_lines-IsStored [] line m h stored = elim (Bool-cases (is_empty line)) [
  | inl e ↦ rw e stored
  | inr e ↦ rw e (store_line-IsStored line m h stored)
]
read_lines-IsStored (c ∷ text) line m h stored = elim (Bool-cases (c == b'\n')) [
  | inl e ↦ rw e (
      read_lines-IsStored text [] _ (unfold contains in refl) (store_line-IsStored line m h stored))
  | inr e ↦ rw e (
      read_lines-IsStored text (line ++ c ∷ []) m
        (contains-append b'\n' line (c ∷ []) ∙ unfold contains in ground (arith, h)) stored)
]

-- Whatever the file holds, what is read of it is a map that a write can store.
pub read_preferences-IsStored : (files : Files) → IsStored (read_preferences files)
unfolding read_preferences
read_preferences-IsStored files =
    read_lines-IsStored (contents files.preferences) [] [] (unfold contains in refl) (tt, tt)

video-IsLine : (enabled : Bool) → IsLine (video_key, if enabled then codes "1" else codes "0")
unfolding contains
video-IsLine true = (refl, refl, refl)
video-IsLine false = (refl, refl, refl)

stored :
    (enabled : Bool) (m : Values)
    → IsStored m
    → IsStored (set_compatibility_video_rendering enabled m)
unfolding set_compatibility_video_rendering
stored enabled m h =
    (assign-IsMap video_key _ m h.0, All-assign video_key _ m (video-IsLine enabled) h.1)

-- The video setting that is written to the preferences, whatever they held, is the one that the next
-- start reads, where the write returns; where it throws, the next start reads the old one.
pub video-next_start :
    (system : System) (enabled : Bool) (files : Files)
    → compatibility_video_rendering (
        read_preferences
          (write_preferences system
            (set_compatibility_video_rendering enabled (read_preferences files))
            files).0)
      ≡ (if (write_preferences system
            (set_compatibility_video_rendering enabled (read_preferences files))
            files).1
          then enabled
          else compatibility_video_rendering (read_preferences files))
video-next_start system enabled files =
    let old = read_preferences files in
    let new = set_compatibility_video_rendering enabled old in
    elim (Bool-cases (write_preferences system new files).1) [
      | inl returns ↦ rw returns (
          ap compatibility_video_rendering (
            read-write_preferences system new files
              (stored enabled old (read_preferences-IsStored files)) returns)
          ∙ (video-set enabled old [] true).0)
      | inr throws ↦
          rw throws
            (ap compatibility_video_rendering (write_preferences-thrown system new files throws))
    ]
