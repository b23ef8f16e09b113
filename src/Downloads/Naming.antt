-- ===== src/Downloads/Naming.antt =====
-- src/native_app.cpp: the file that a download goes into, `download_destination`. The answer of
-- `std::filesystem::exists` to each name is a parameter, `none` where it throws, as it does for a name
-- that is too long; the loop over the numbers has fuel.
use vant.Prelude.{
  ℕ, suc, zero, ◌+◌, ◌-◌, ◌%◌, ◌^◌, ◌≤◌, ◌<◌, ◌≡◌, refl, Bool, true, false, not, ◌&&◌, ◌||◌, [],
  ◌∷◌, ◌++◌, Option, none, some, arith, ltb, ◌==◌, if◌then◌else◌, Bytes, codes, bytes_eq, length,
  take, drop, length-append, length-take, inl, inr, Bool-cases, Option-cases, if_intro,
}
use vant.Decimal.{to_string}
use vant.Preferences.File.{join_path}
use vant.Strings.{is_empty, starts_with}
use vant.UserData.Paths.{safe_name, extension, extension_from}
use vant.Downloads.{DownloadContext}

abbrev stem : Bytes → Bytes
stem name = take (length name - length (extension name)) name

unfoldable pub numbered : ℕ → Bytes → Bytes
numbered suffix name = stem name ++ codes " (" ++ to_string suffix ++ codes ")" ++ extension name

-- The name that was found, an exception of `exists`, or a search without an end, which does not
-- happen while names have at most 255 bytes.
pub data FreeName : Type 0 where
  free_at : Bytes → FreeName
  thrown endless : FreeName

abbrev checked : Bytes → FreeName → Option Bool → FreeName
checked name later none = FreeName.thrown
checked name later (some taken) = if taken then later else free_at name

-- The first name that is free; the number is 32 bits wide.
unfoldable pub free_name : ℕ → (Bytes → Option Bool) → ℕ → Bytes → FreeName
unfolding numbered
free_name zero exists suffix name = FreeName.endless
free_name (suc fuel) exists suffix name =
    let later = free_name fuel exists ((suffix + 1) % 2 ^ 32) (numbered suffix name) in
    checked name later (exists name)

-- Where the download goes: the user is asked, WebKit decides, the name cannot be an address, or a
-- file of the directory. After `failed` the handler is left by an exception.
pub data Choice : Type 0 where
  ask leave refused failed : Choice
  file : Bytes → Choice

abbrev is_long : Option Bytes → Bool
is_long none = false
is_long (some name) = ltb 180 (length name)

abbrev is_data : Option Bytes → Bool
is_data none = false
is_data (some source) = starts_with (codes "data:") source

abbrev image_extension : Option Bytes → Bytes
image_extension none = codes ".bin"
image_extension (some mime) =
    if not (starts_with (codes "image/") mime)
    then codes ".bin"
    else (let type = drop 6 mime in
        if bytes_eq type (codes "svg+xml")
        then codes ".svg"
        else if bytes_eq type (codes "jpeg")
        then codes ".jpg"
        else codes "." ++ type)

abbrev or_unnamed : Option Bytes → Bytes
or_unnamed none = codes "download"
or_unnamed (some name) = name

abbrev given_name : Option Bytes → Bytes
given_name none = codes "Download"
given_name (some name) = if is_empty name then codes "Download" else name

-- The name before it is made safe; `mime` is the response's type.
unfoldable pub proposed : Option Bytes → Option Bytes → Option Bytes → Bytes
proposed suggested source mime =
    if is_long suggested || is_data source
    then codes "image" ++ image_extension mime
    else or_unnamed suggested

abbrev saved : (Bytes → Bool) → Bytes → DownloadContext → FreeName → DownloadContext × Choice
saved has_uri directory c FreeName.thrown = (c, Choice.failed)
saved has_uri directory c FreeName.endless = (c, Choice.leave)
saved has_uri directory c (free_at name) =
    if has_uri name
    then (record c { destination = join_path directory name }, Choice.file name)
    else (record c { failed = true }, Choice.refused)

abbrev is_unnamed : Option Bytes → Bool
is_unnamed none = true
is_unnamed (some name) = false

-- `open_window` tells whether the download's window is there and not closed, `has_uri` whether
-- `g_filename_to_uri` takes the name.
unfoldable pub download_destination :
    Option Bytes
    → Option Bytes
    → Option Bytes
    → Bool
    → Bytes
    → (Bytes → Option Bool)
    → (Bytes → Bool)
    → DownloadContext
    → DownloadContext × Choice
unfolding free_name proposed
download_destination suggested source mime open_window directory exists has_uri c =
    let named : DownloadContext = record c { suggested_name = given_name suggested } in
    if c.prompt_destination && open_window
    then (named, Choice.ask)
    else if not (is_unnamed suggested || is_long suggested || is_data source)
    then (named, Choice.leave)
    else saved has_uri directory named
        (free_name 257 exists 1 (safe_name (proposed suggested source mime)))

extension-length :
    (found s : Bytes) (n : ℕ)
    → length found ≤ n
    → length s ≤ n
    → length (extension_from found s) ≤ n
unfolding extension_from
extension-length found [] n h k = h
extension-length found (c ∷ cs) n h k =
    if_intro (λ (s : Bytes). length s ≤ n) (c == 46) _ _
      (λ _. extension-length (c ∷ cs) cs n k (omega (arith, k)))
      (λ _. extension-length found cs n h (omega (arith, k)))

framed-longer :
    (a b c : Bytes) → length a + length c < length (a ++ codes " (" ++ b ++ codes ")" ++ c)
framed-longer a b c = omega (
  arith,
  length-append (a ++ codes " (" ++ b ++ codes ")") c,
  length-append (a ++ codes " (" ++ b) (codes ")"),
  length-append (a ++ codes " (") b,
  length-append a (codes " ("),
)

numbered-longer : (suffix : ℕ) (name : Bytes) → length name < length (numbered suffix name)
unfolding numbered
numbered-longer suffix name =
    let e = extension name in
    let few = extension-length [] name (length name) (omega arith) (omega arith) in
    omega (
      arith,
      few,
      length-take (length name - length e) name,
      framed-longer (stem name) (to_string suffix) e,
    )

-- How a search ends: with a name that is free, or with the exception for a name that it tried.
pub data SearchEnded (exists : Bytes → Option Bool) (name : Bytes) : FreeName → Type 0 where
  free :
      (r : Bytes)
      → exists r ≡ some false
      → length name ≤ length r
      → SearchEnded exists name (free_at r)
  fails : (r : Bytes) → exists r ≡ none → length name ≤ length r → SearchEnded exists name thrown

SearchEnded-longer :
    (exists : Bytes → Option Bool) (a b : Bytes) (r : FreeName)
    → length a ≤ length b
    → SearchEnded exists b r
    → SearchEnded exists a r
SearchEnded-longer exists a b r h (free s e k) = free s e (omega (arith, h, k))
SearchEnded-longer exists a b r h (fails s e k) = fails s e (omega (arith, h, k))

-- Fuel for every length that is left up to the longest name.
free_name-enough :
    (fuel : ℕ) (exists : Bytes → Option Bool) (suffix : ℕ) (name : Bytes)
    → ((s : Bytes) → exists s ≡ some true → length s ≤ 255)
    → 257 ≤ fuel + length name
    → 1 ≤ fuel
    → SearchEnded exists name (free_name fuel exists suffix name)
unfolding free_name
free_name-enough zero exists suffix name limit enough some_fuel = ground (arith, some_fuel)
free_name-enough (suc fuel) exists suffix name limit enough some_fuel =
    elim (Option-cases (exists name)) [
      | inl miss ↦ rw (free_name, miss) (fails name miss (omega arith))
      | inr (false, e) ↦ rw (free_name, e) (free name e (omega arith))
      | inr (true, e) ↦
          let longer = numbered-longer suffix name in
          rw (free_name, e)
            (SearchEnded-longer exists name (numbered suffix name) _ (omega (arith, longer)) (
              free_name-enough fuel exists ((suffix + 1) % 2 ^ 32) (numbered suffix name) limit
                (omega (arith, longer, enough)) (omega (arith, limit name e, enough))))
    ]

-- Where no file has a name of more than 255 bytes, the search for a free name ends within 257
-- rounds: with a name that no file has, or with the exception of `exists` for a name that it tried,
-- in both cases one that is not shorter than the name it began with.
pub free_name-total :
    (exists : Bytes → Option Bool) (name : Bytes)
    → ((s : Bytes) → exists s ≡ some true → length s ≤ 255)
    → SearchEnded exists name (free_name 257 exists 1 name)
free_name-total exists name limit =
    free_name-enough 257 exists 1 name limit (omega arith) (omega arith)

-- Where every name of at most 255 bytes is taken and a longer one makes `exists` throw, the search for
-- a name that starts with at most 255 bytes throws, which ends the browser.
pub free_name-thrown :
    (exists : Bytes → Option Bool) (name : Bytes)
    → ((s : Bytes) → length s ≤ 255 → exists s ≡ some true)
    → ((s : Bytes) → 255 < length s → exists s ≡ none)
    → free_name 257 exists 1 name ≡ FreeName.thrown
free_name-thrown exists name short long = ended-thrown _ (free_name-total exists name limit)
  where
    limit : (s : Bytes) → exists s ≡ some true → length s ≤ 255
    limit s e = elim (Bool-cases (ltb 255 (length s))) [
      | inl h ↦ absurd (ground (arith, e, long s (ground (arith, h))))
      | inr h ↦ ground (arith, h)
    ]

    ended-thrown : (r : FreeName) → SearchEnded exists name r → r ≡ FreeName.thrown
    ended-thrown _ (fails s e k) = refl
    ended-thrown _ (free s e k) = elim (Bool-cases (ltb 255 (length s))) [
      | inl h ↦ absurd (ground (arith, e, long s (ground (arith, h))))
      | inr h ↦ absurd (ground (arith, e, short s (ground (arith, h))))
    ]
