-- ===== src/UserData/Paths.antt =====
-- src/user_data.cpp: the name of a file in `safe_download_path`, lines 52 to 57. That the directory
-- and the name are joined and normalized is left to the file system library.
use vant.Prelude.{
  ℕ, ◌-◌, ◌≤◌, ◌≡◌, Bool, false, ◌||◌, [], ◌∷◌, ◌++◌, ltb, leb, ◌==◌, if◌then◌else◌, Bytes, codes,
  bytes_eq, length, take, All,
}
use vant.Strings.{is_empty}

-- The bytes after the last `/`.
unfoldable pub filename_from : Bytes → Bytes → Bytes
filename_from found [] = found
filename_from found (c ∷ cs) =
    let rest = filename_from cs cs in if c == 47 then rest else filename_from found cs

abbrev filename : Bytes → Bytes
filename path = filename_from path path

-- The bytes from the last `.`.
unfoldable pub extension_from : Bytes → Bytes → Bytes
extension_from found [] = found
extension_from found (c ∷ cs) =
    let rest = extension_from (c ∷ cs) cs in if c == 46 then rest else extension_from found cs

abbrev pub extension : Bytes → Bytes
extension name = extension_from [] name

abbrev is_removed : ℕ → Bool
is_removed c = ltb c 32 || c == 127 || c == 47 || c == 92

unfoldable pub kept_bytes : Bytes → Bytes
kept_bytes [] = []
kept_bytes (c ∷ cs) = let rest = kept_bytes cs in if is_removed c then rest else c ∷ rest

abbrev or_download : Bytes → Bytes
or_download name =
    if is_empty name || bytes_eq name (codes ".") || bytes_eq name (codes "..")
    then codes "download"
    else name

abbrev starts_with_dot : Bytes → Bool
starts_with_dot [] = false
starts_with_dot (c ∷ cs) = c == 46

abbrev without_dot : Bytes → Bytes
without_dot name = if starts_with_dot name then codes "download" ++ name else name

abbrev max_name_bytes : ℕ
max_name_bytes = 120

abbrev suffix_of : Bytes → Bytes
suffix_of name = let e = extension name in if leb (length e) 12 then e else []

abbrev cut_name : Bytes → Bytes
cut_name name =
    if ltb max_name_bytes (length name)
    then (let suffix = suffix_of name in take (max_name_bytes - length suffix) name ++ suffix)
    else name

unfoldable pub safe_name : Bytes → Bytes
safe_name suggested = cut_name (without_dot (or_download (kept_bytes (filename suggested))))

abbrev IsKept : Bytes → Type 0
IsKept = All (λ (c : ℕ). is_removed c ≡ false)

-- A name of a file in the directory itself, which is not hidden.
pub record IsSafe (name : Bytes) : Type 0 where
  pub kept : All (λ (c : ℕ). is_removed c ≡ false) name
  pub filled : is_empty name ≡ false
  pub shown : starts_with_dot name ≡ false
  pub short : length name ≤ max_name_bytes

-- A first byte that is there and not a dot.
abbrev IsShown : Bytes → Type 0
IsShown name = (is_empty name ≡ false) × (starts_with_dot name ≡ false)
