-- ===== src/Media.antt =====
-- src/native_app.cpp, `permission_requested`: the prompt for a camera or a microphone. What the desktop
-- portal answers to a click is an argument; the prompt's widgets are left out.
pub mod Laws
pub mod Tests
use vant.Prelude.{
  ℕ, Bool, true, false, not, ◌&&◌, ◌||◌, List, [], ◌∷◌, Option, none, some, ◌==◌, if◌then◌else◌,
}

-- The kinds of WebKit's requests, with the devices that are asked for.
pub data PermissionRequest : Type 0 where
  device_info other_kind : PermissionRequest
  user_media : Bool → Bool → PermissionRequest

pub data Decision : Type 0 where
  allow deny : Decision

-- Whether the request and the connection are there, and the subscription, 0 for none.
pub record MediaPermissionPrompt : Type 0 where
  pub request : Bool
  pub portal_connection : Bool
  pub portal_subscription : ℕ

-- The prompt until it is deleted, the subscriptions whose signals are given its pointer, what WebKit
-- was told, and whether a signal came with the pointer of a prompt that was deleted.
pub record MediaState : Type 0 where
  pub prompt : Option MediaPermissionPrompt
  pub subscribed : List ℕ
  pub decisions : List Decision
  pub dangling : Bool

abbrev pub idle : List Decision → MediaState
idle decisions = record { prompt = none; subscribed = []; decisions = decisions; dangling = false }

abbrev pub prompted : MediaState
prompted = record (idle []) {
  prompt = some (record { request = true; portal_connection = false; portal_subscription = 0 });
}

-- Whether the request is handled, and what becomes of it at once.
unfoldable pub permission_requested : PermissionRequest → Bool × MediaState
permission_requested device_info = (true, idle (allow ∷ []))
permission_requested other_kind = (false, idle [])
permission_requested (user_media audio video) =
    if not audio && not video then (false, idle []) else (true, prompted)

unfoldable pub unsubscribe : ℕ → List ℕ → List ℕ
unsubscribe n [] = []
unsubscribe n (m ∷ ms) = let rest = unsubscribe n ms in if m == n then rest else m ∷ rest

-- The subscriptions after `cleanup_media_prompt`.
unfoldable pub cleanup_media_prompt : MediaPermissionPrompt → List ℕ → List ℕ
unfolding unsubscribe
cleanup_media_prompt p subscribed =
    if not (p.portal_subscription == 0) && p.portal_connection
    then unsubscribe p.portal_subscription subscribed
    else subscribed

unfoldable pub finish_media_permission : Bool → MediaPermissionPrompt → MediaState → MediaState
unfolding cleanup_media_prompt
finish_media_permission allowed p s = if not p.request then s else record s {
  prompt = none;
  subscribed = cleanup_media_prompt p s.subscribed;
  decisions = (if allowed then allow else deny) ∷ s.decisions;
}

-- What a click on Allow meets: whether the session bus is there, and the subscription to the portal's
-- response, or `none` where the portal is not available.
pub record Portal : Type 0 where
  pub bus : Bool
  pub handle : Option ℕ

abbrev pub subscribed_at : Option ℕ → MediaPermissionPrompt → MediaState → MediaState
subscribed_at none p s = finish_media_permission true p s
subscribed_at (some n) p s = record s {
  prompt = some (record p { portal_subscription = n });
  subscribed = n ∷ s.subscribed;
}

unfoldable pub allow_media_permission :
    Bool → Portal → MediaPermissionPrompt → MediaState → MediaState
unfolding finish_media_permission
allow_media_permission video portal p s =
    if not video
    then finish_media_permission true p s
    else if not portal.bus
    then finish_media_permission true (record p { portal_connection = false }) s
    else subscribed_at portal.handle (record p { portal_connection = true }) s

-- The handler of the prompt's `close-request`.
unfoldable pub close_prompt : MediaPermissionPrompt → MediaState → MediaState
unfolding cleanup_media_prompt
close_prompt p s = record s {
  prompt = none;
  subscribed = cleanup_media_prompt p s.subscribed;
  decisions = if p.request then deny ∷ s.decisions else s.decisions;
}

-- What the user and the portal make happen; a response has its subscription and its code.
pub data MediaEvent : Type 0 where
  allow_clicked : Portal → MediaEvent
  deny_clicked closed : MediaEvent
  response : ℕ → ℕ → MediaEvent

abbrev pub is_in : ℕ → List ℕ → Bool
is_in n [] = false
is_in n (m ∷ ms) = m == n || is_in n ms

-- `camera_portal_response`, where the subscription is there.
abbrev pub responded : Option MediaPermissionPrompt → ℕ → MediaState → MediaState
responded none code s = record s { dangling = true }
responded (some p) code s = finish_media_permission (code == 0) p s

-- The widgets of a prompt that was deleted are gone.
abbrev pub on_prompt :
    Option MediaPermissionPrompt → MediaState → (MediaPermissionPrompt → MediaState) → MediaState
on_prompt none s k = s
on_prompt (some p) s k = k p

unfoldable pub media_event : Bool → MediaEvent → MediaState → MediaState
unfolding allow_media_permission close_prompt
media_event video (allow_clicked portal) s =
    on_prompt s.prompt s (λ p. allow_media_permission video portal p s)
media_event video deny_clicked s = on_prompt s.prompt s (λ p. finish_media_permission false p s)
media_event video closed s = on_prompt s.prompt s (λ p. close_prompt p s)
media_event video (response n code) s =
    if is_in n s.subscribed then responded s.prompt code s else s

unfoldable pub media_events : Bool → List MediaEvent → MediaState → MediaState
media_events video [] s = s
media_events video (e ∷ es) s = media_events video es (media_event video e s)
