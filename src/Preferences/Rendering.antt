-- ===== src/Preferences/Rendering.antt =====
-- The environment of the renderer, preferences.cpp.
use vant.Prelude.{
  ◌≡◌, refl, ◌∙◌, Bool, true, false, ◌&&◌, none, some, arith, if◌then◌else◌, Bytes, codes, bytes_eq,
}
use vant.Preferences.{lookup, assign, erase}
use vant.Preferences.File.{
  System, Variables, disable_dmabuf, disable_sink, disable_compositing,
  apply_video_rendering_environment,
}
use vant.Preferences.Maps.{IsMap, lookup-erase_self, erase-IsMap}
use vant.Preferences.Settings.{lookup-assign_self, lookup-assign_ne, lookup-erase_ne}

names :
    (bytes_eq disable_dmabuf disable_sink ≡ false)
    × (bytes_eq disable_dmabuf disable_compositing ≡ false)
    × (bytes_eq disable_sink disable_dmabuf ≡ false)
    × (bytes_eq disable_sink disable_compositing ≡ false)
    × (bytes_eq disable_compositing disable_dmabuf ≡ false)
    × (bytes_eq disable_compositing disable_sink ≡ false)
unfolding bytes_eq
names = (refl, refl, refl, refl, refl, refl)

-- A variable stays as it was if its name is none of the three.
other_kept :
    (name x y z v : Bytes) (variables : Variables)
    → bytes_eq x name ≡ false
    → bytes_eq y name ≡ false
    → bytes_eq z name ≡ false
    → lookup name (assign z v (erase y (erase x variables))) ≡ lookup name variables
other_kept name x y z v variables hx hy hz =
    lookup-assign_ne name z v (erase y (erase x variables)) hz
    ∙ lookup-erase_ne name y (erase x variables) hy
    ∙ lookup-erase_ne name x variables hx

-- The first of two erased variables is gone.
first_gone :
    (x y z v : Bytes) (variables : Variables)
    → IsMap variables
    → bytes_eq y x ≡ false
    → bytes_eq z x ≡ false
    → lookup x (assign z v (erase y (erase x variables))) ≡ none
first_gone x y z v variables map hy hz =
    lookup-assign_ne x z v (erase y (erase x variables)) hz
    ∙ lookup-erase_ne x y (erase x variables) hy
    ∙ lookup-erase_self x variables map

second_gone :
    (x y z v : Bytes) (variables : Variables)
    → IsMap variables
    → bytes_eq z y ≡ false
    → lookup y (assign z v (erase y (erase x variables))) ≡ none
second_gone x y z v variables map hz =
    lookup-assign_ne y z v (erase y (erase x variables)) hz
    ∙ lookup-erase_self y (erase x variables) (erase-IsMap x variables map)

abbrev pub AllWork : System → Type 0
AllWork system =
    (system.changes disable_dmabuf
      && (system.changes disable_sink && system.changes disable_compositing))
    ≡ true

returned_true :
    (system : System) (variables : Variables)
    → AllWork system
    → apply_video_rendering_environment system true variables ≡ (
      assign disable_compositing (codes "1") (erase disable_sink (erase disable_dmabuf variables)),
      true,
    )
unfolding apply_video_rendering_environment
returned_true system variables works = ground arith

returned_false :
    (system : System) (variables : Variables)
    → AllWork system
    → apply_video_rendering_environment system false variables ≡ (
      assign disable_sink (codes "1") (erase disable_dmabuf (erase disable_compositing variables)),
      true,
    )
unfolding apply_video_rendering_environment
returned_false system variables works = ground arith

-- Where every change of a variable succeeds, the call returns and leaves exactly one of the two
-- workarounds on: compositing is disabled in the compatible mode, and the DMA-BUF sink in the
-- accelerated one; WebKit's renderer is disabled in neither, and every other variable is kept.
pub apply_video_rendering-Exclusive :
    (system : System) (enabled : Bool) (variables : Variables) (name : Bytes)
    → IsMap variables
    → (system.changes disable_dmabuf
        && (system.changes disable_sink && system.changes disable_compositing))
      ≡ true
    → bytes_eq disable_dmabuf name ≡ false
    → bytes_eq disable_sink name ≡ false
    → bytes_eq disable_compositing name ≡ false
    → ((apply_video_rendering_environment system enabled variables).1 ≡ true)
      × (lookup disable_compositing (apply_video_rendering_environment system enabled variables).0
          ≡ (if enabled then some (codes "1") else none))
      × (lookup disable_sink (apply_video_rendering_environment system enabled variables).0
          ≡ (if enabled then none else some (codes "1")))
      × (lookup disable_dmabuf (apply_video_rendering_environment system enabled variables).0
          ≡ none)
      × (lookup name (apply_video_rendering_environment system enabled variables).0
          ≡ lookup name variables)
apply_video_rendering-Exclusive system true variables name map works d s c =
    let out = returned_true system variables works in
    rw out (
      refl,
      lookup-assign_self disable_compositing (codes "1") _,
      second_gone disable_dmabuf disable_sink disable_compositing (codes "1") variables map names.5,
      first_gone disable_dmabuf disable_sink disable_compositing (codes "1") variables map names.2
          names.4,
      other_kept name disable_dmabuf disable_sink disable_compositing (codes "1") variables d s c,
    )
apply_video_rendering-Exclusive system false variables name map works d s c =
    let out = returned_false system variables works in
    rw out (
      refl,
      first_gone disable_compositing disable_dmabuf disable_sink (codes "1") variables map names.1
          names.3,
      lookup-assign_self disable_sink (codes "1") _,
      second_gone disable_compositing disable_dmabuf disable_sink (codes "1") variables map names.2,
      other_kept name disable_compositing disable_dmabuf disable_sink (codes "1") variables c d s,
    )
