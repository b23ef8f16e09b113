-- ===== src/Media/Laws.antt =====
-- src/native_app.cpp: who may use a camera or a microphone.
use vant.Prelude.{
  ℕ, ◌≡◌, inl, inr, Bool, true, false, not, ◌||◌, List, [], ◌∷◌, Option, none, some, arith, ◌==◌,
  Bool-cases, if_intro,
}
use vant.Media.{
  Decision, allow, deny, user_media, MediaPermissionPrompt, MediaState, prompted,
  permission_requested, finish_media_permission, Portal, subscribed_at, allow_media_permission,
  close_prompt, MediaEvent, allow_clicked, deny_clicked, closed, response, is_in, responded,
  on_prompt, media_event, media_events, cleanup_media_prompt, unsubscribe,
}

abbrev is_allow : Decision → Bool
is_allow allow = true
is_allow deny = false

abbrev pub is_allowed : List Decision → Bool
is_allowed [] = false
is_allowed (d ∷ ds) = is_allow d || is_allowed ds

abbrev is_none : Option ℕ → Bool
is_none none = true
is_none (some n) = false

-- What lets a page have the devices: a click on Allow, where no camera is asked for or no portal can
-- be, or the portal's consent.
abbrev pub grants : Bool → MediaEvent → Bool
grants video (allow_clicked portal) = not video || not portal.bus || is_none portal.handle
grants video deny_clicked = false
grants video closed = false
grants video (response n code) = code == 0

abbrev pub any_grants : Bool → List MediaEvent → Bool
any_grants video [] = false
any_grants video (e ∷ es) = grants video e || any_grants video es

finish-denied :
    (p : MediaPermissionPrompt) (s : MediaState)
    → is_allowed s.decisions ≡ false
    → is_allowed (finish_media_permission false p s).decisions ≡ false
unfolding finish_media_permission
finish-denied p s h = ground (arith, h)

close-denied :
    (p : MediaPermissionPrompt) (s : MediaState)
    → is_allowed s.decisions ≡ false
    → is_allowed (close_prompt p s).decisions ≡ false
unfolding close_prompt
close-denied p s h = ground (arith, h)

subscribed_at-waits :
    (o : Option ℕ) (p : MediaPermissionPrompt) (s : MediaState)
    → is_none o ≡ false
    → is_allowed s.decisions ≡ false
    → is_allowed (subscribed_at o p s).decisions ≡ false
subscribed_at-waits none p s g h = absurd (ground (arith, g))
subscribed_at-waits (some n) p s g h = h

IsDenied : MediaState → Type 0
IsDenied s = is_allowed s.decisions ≡ false

allow-waits :
    (video : Bool) (portal : Portal) (p : MediaPermissionPrompt) (s : MediaState)
    → grants video (allow_clicked portal) ≡ false
    → is_allowed s.decisions ≡ false
    → is_allowed (allow_media_permission video portal p s).decisions ≡ false
unfolding allow_media_permission IsDenied
allow-waits video portal p s g h =
    if_intro IsDenied (not video) _ _ (λ none_asked. absurd (ground (arith, g, none_asked)))
      (λ asked.
        if_intro IsDenied (not portal.bus) _ _ (λ no_bus. absurd (ground (arith, g, no_bus)))
          (λ bus. subscribed_at-waits portal.handle _ s (ground (arith, g)) h))

on_prompt-denied :
    (o : Option MediaPermissionPrompt) (s : MediaState) (k : MediaPermissionPrompt → MediaState)
    → is_allowed s.decisions ≡ false
    → ((p : MediaPermissionPrompt) → is_allowed (k p).decisions ≡ false)
    → is_allowed (on_prompt o s k).decisions ≡ false
on_prompt-denied none s k h each = h
on_prompt-denied (some p) s k h each = each p

responded-denied :
    (o : Option MediaPermissionPrompt) (code : ℕ) (s : MediaState)
    → (code == 0) ≡ false
    → is_allowed s.decisions ≡ false
    → is_allowed (responded o code s).decisions ≡ false
responded-denied none code s g h = h
responded-denied (some p) code s g h = rw g (finish-denied p s h)

media_event-denied :
    (video : Bool) (e : MediaEvent) (s : MediaState)
    → grants video e ≡ false
    → is_allowed s.decisions ≡ false
    → is_allowed (media_event video e s).decisions ≡ false
unfolding media_event IsDenied
media_event-denied video (allow_clicked portal) s g h =
    on_prompt-denied s.prompt s _ h (λ p. allow-waits video portal p s g h)
media_event-denied video deny_clicked s g h =
    on_prompt-denied s.prompt s _ h (λ p. finish-denied p s h)
media_event-denied video closed s g h = on_prompt-denied s.prompt s _ h (λ p. close-denied p s h)
media_event-denied video (response n code) s g h =
    if_intro IsDenied (is_in n s.subscribed) _ _
      (λ subscribed. responded-denied s.prompt code s g h) (λ stranger. h)

media_events-granted :
    (video : Bool) (es : List MediaEvent) (s : MediaState)
    → is_allowed s.decisions ≡ false
    → is_allowed (media_events video es s).decisions ≡ true
    → any_grants video es ≡ true
unfolding media_events
media_events-granted video [] s h allowed = absurd (ground (arith, h, allowed))
media_events-granted video (e ∷ es) s h allowed = elim (Bool-cases (grants video e)) [
  | inl granted ↦ ground (arith, granted)
  | inr withheld ↦
      let later =
        media_events-granted video es (media_event video e s)
          (media_event-denied video e s withheld h) allowed in
      ground (arith, later)
]

-- A page that asks for a camera or a microphone is allowed it only where something granted it: a click
-- on Allow, where no camera is asked for or no portal can be asked, or a response of the portal that
-- consents; whatever else is clicked, closed or answered, and in any order.
pub media_events-allowed :
    (audio video : Bool) (es : List MediaEvent)
    → is_allowed (media_events video es (permission_requested (user_media audio video)).1).decisions
      ≡ true
    → any_grants video es ≡ true
unfolding permission_requested
media_events-allowed audio video es allowed =
    media_events-granted video es (permission_requested (user_media audio video)).1 none_yet allowed
  where
    none_yet : is_allowed (permission_requested (user_media audio video)).1.decisions ≡ false
    none_yet = unfold permission_requested in ground arith

-- Two clicks on Allow, before the portal has answered the first, leave a subscription behind: where the
-- portal answers the second one first, its answer to the first comes with the pointer of a prompt that
-- was deleted.
pub media_events-dangling :
    (m n code later : ℕ)
    → (m == n) ≡ false
    → (n == 0) ≡ false
    → (media_events true
        (allow_clicked (record { bus = true; handle = some m })
          ∷ allow_clicked (record { bus = true; handle = some n })
          ∷ response n code
          ∷ response m later
          ∷ [])
        prompted).dangling
      ≡ true
unfolding media_events media_event allow_media_permission finish_media_permission
    cleanup_media_prompt unsubscribe
media_events-dangling m n code later other real = ground (arith, other, real)
