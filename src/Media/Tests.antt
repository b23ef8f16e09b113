-- ===== src/Media/Tests.antt =====
-- The prompt of src/native_app.cpp at concrete clicks.
use vant.Prelude.{◌≡◌, refl, true, List, [], ◌∷◌, some}
use vant.Media.{
  prompted, user_media, permission_requested, MediaEvent, allow_clicked, response, media_event,
  media_events, allow_media_permission, finish_media_permission, cleanup_media_prompt, unsubscribe,
}
use vant.Media.Laws.{is_allowed, any_grants, media_events-allowed, media_events-dangling}

abbrev consent : List MediaEvent
consent = allow_clicked (record { bus = true; handle = some 7 }) ∷ response 7 0 ∷ []

is_allowed-consent :
    is_allowed (media_events true consent (permission_requested (user_media true true)).1).decisions
    ≡ true
unfolding media_events media_event permission_requested allow_media_permission
    finish_media_permission cleanup_media_prompt unsubscribe
is_allowed-consent = refl

media_events-allowed_example : any_grants true consent ≡ true
media_events-allowed_example = media_events-allowed true true consent is_allowed-consent

media_events-dangling_example :
    (media_events true
      (allow_clicked (record { bus = true; handle = some 1 })
        ∷ allow_clicked (record { bus = true; handle = some 2 })
        ∷ response 2 0
        ∷ response 1 0
        ∷ [])
      prompted).dangling
    ≡ true
media_events-dangling_example = media_events-dangling 1 2 0 0 refl refl
