-- ===== src/Downloads/Tests.antt =====
-- Runs of a download, src/native_app.cpp, at concrete signals.
use vant.Prelude.{
  if◌then◌else◌, true, false, Option, ltb, Bool, none, ◌≡◌, refl, List, [], ◌∷◌, some, codes, arith,
  Bytes, bytes_eq, length, ◌≤◌,
}
use vant.UserData.Tests.{two_downloads}
use vant.Downloads.{DownloadContext, Signal, fresh_context, handle_all}
use vant.Decimal.{to_string}
use vant.Strings.{starts_with}
use vant.UserData.Paths.{extension_from}
use vant.Downloads.Naming.{
  FreeName, free_at, free_name, numbered, proposed, SearchEnded, free_name-total, free_name-thrown,
}
use vant.Downloads.Laws.{handle_all-private_mode}

abbrev signals : List Signal
signals =
    Signal.created (some (codes "/home/u/a.zip")) (codes "/home/u")
      (codes "https://example.org/a.zip") 7 1
    ∷ Signal.received (codes "https://example.org/a.zip") 3 (some 5)
    ∷ Signal.failed (codes "https://example.org/a.zip") none
    ∷ Signal.finished (codes "https://example.org/a.zip") 5 (some 5)
    ∷ []

handle_all-private_mode_example :
    (handle_all signals (fresh_context 1 true false none) two_downloads).1 ≡ two_downloads
handle_all-private_mode_example =
    handle_all-private_mode signals (fresh_context 1 true false none) two_downloads refl

abbrev recorded : DownloadContext
recorded = record (fresh_context 1 false false none) { record_id = 1 }

-- One file is there; longer ones cannot be looked at.
abbrev present : Bytes → Option Bool
present s = if ltb 255 (length s) then none else some (bytes_eq (codes "a.zip") s)

present-length : (s : Bytes) → present s ≡ some true → length s ≤ 255
present-length s h = ground (arith, h)

free_name-total_example :
    SearchEnded present (codes "a.zip") (free_name 257 present 1 (codes "a.zip"))
free_name-total_example = free_name-total present (codes "a.zip") present-length

numbered_name : free_name 2 present 1 (codes "a.zip") ≡ free_at (codes "a (1).zip")
unfolding free_name numbered bytes_eq extension_from to_string
numbered_name = refl

-- A directory in which every name that fits is taken.
abbrev crowded : Bytes → Option Bool
crowded s = if ltb 255 (length s) then none else some true

crowded-thrown : free_name 257 crowded 1 (codes "a.zip") ≡ FreeName.thrown
crowded-thrown =
    free_name-thrown crowded (codes "a.zip") (λ s h. ground (arith, h)) (λ s h. ground (arith, h))

jpeg_name :
    proposed none (some (codes "data:image/jpeg,")) (some (codes "image/jpeg")) ≡ codes "image.jpg"
unfolding proposed starts_with bytes_eq
jpeg_name = refl
