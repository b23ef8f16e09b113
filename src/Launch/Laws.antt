-- ===== src/Launch/Laws.antt =====
-- What the parser of launch_options.cpp promises of its result.
use vant.Prelude.{
  ◌≡◌, ◌≢◌, refl, subst, ◌⊎◌, inl, inr, Bool, true, false, not, ◌&&◌, ◌||◌, List, [], ◌∷◌, arith,
  if◌then◌else◌, if_intro, Bool-cases, Option, Bytes, codes, drop,
}
use vant.Strings.{is_empty, starts_with}
use vant.Launch.{
  NativeLaunchOptions, LaunchOptionsParse, Next, carry_on, wait_value, stop, is_text,
  is_launch_target, invalidate, open_app, on_app_value, on_other, on_argument, finish, parse_loop,
  default_parse, parse_launch_options, requires_url, unknown_address,
}

-- The address is the start page or looks like an address, which an application window always has.
pub record Opens (o : NativeLaunchOptions) : Type 0 where
  pub target : (o.initial_uri ≡ codes "vantage:new") ⊎ (is_launch_target o.initial_uri ≡ true)
  pub app_target : o.app_mode ≡ true → is_launch_target o.initial_uri ≡ true
  pub no_smoke : o.smoke ≡ false
  pub no_probe : o.tab_probe ≡ false

-- The state of the loop: nothing has been refused yet.
pub record Going (r : LaunchOptionsParse) : Type 0 where
  pub opens : Opens r.options
  pub valid : r.valid ≡ true
  pub no_error : r.error ≡ []

-- A result is valid and has no message, or is invalid and has one.
abbrev pub Reports : Bool → Bytes → Type 0
Reports true error = error ≡ []
Reports false error = error ≢ []

pub record Result (r : LaunchOptionsParse) : Type 0 where
  pub opens : Opens r.options
  pub reports : Reports r.valid r.error
  pub exclusive : r.valid ≡ true → (r.options.app_mode && r.options.private_mode) ≡ false

abbrev NextOk : Next → Type 0
NextOk (carry_on r h) = Going r
NextOk (wait_value r) = Going r
NextOk (stop r) = Result r

invalidate-Result :
    (r : LaunchOptionsParse) (message : Bytes)
    → Going r
    → message ≢ []
    → Result (invalidate r message)
unfolding invalidate
invalidate-Result r message g m = record { opens = g.opens; reports = m; exclusive = λ e. cc }

open_app-NextOk : (r : LaunchOptionsParse) (uri : Bytes) → Going r → NextOk (open_app r uri)
unfolding open_app
open_app-NextOk r uri g = elim (Bool-cases (is_launch_target uri)) [
  | inl fits ↦
      rw (fits, open_app)
        (record {
          opens = record {
            target = inr fits;
            app_target = λ _. fits;
            no_smoke = g.opens.no_smoke;
            no_probe = g.opens.no_probe;
          };
          valid = g.valid;
          no_error = g.no_error;
        })
  | inr bad ↦ rw (bad, open_app) (invalidate-Result r (unknown_address uri) g (λ e. cc))
]

on_other-NextOk :
    (r : LaunchOptionsParse) (h : Bool) (a : Bytes) → Going r → NextOk (on_other r h a)
unfolding on_other
on_other-NextOk r h a g =
    if_intro NextOk (not (starts_with (codes "-") a) && not h && is_launch_target a) _ _
      (λ e. record {
        opens = record {
          target = inr (ground arith);
          app_target = λ _. ground arith;
          no_smoke = g.opens.no_smoke;
          no_probe = g.opens.no_probe;
        };
        valid = g.valid;
        no_error = g.no_error;
      })
      (λ _. invalidate-Result r _ g (
        if_intro (λ m. m ≢ []) (starts_with (codes "-") a) _ _ (λ _ e. cc)
          (λ _. if_intro (λ m. m ≢ []) h _ _ (λ _ e. cc) (λ _ e. cc))))

on_app_value-NextOk : (r : LaunchOptionsParse) (a : Bytes) → Going r → NextOk (on_app_value r a)
unfolding on_app_value
on_app_value-NextOk r a g =
    if_intro NextOk (is_empty a || starts_with (codes "-") a) _ _
      (λ _. invalidate-Result r requires_url g (λ e. cc)) (λ _. open_app-NextOk r a g)

-- The options with one flag or the rendering choice set keep what is said of the address.
set_flags-Going :
    (r : LaunchOptionsParse) (fullscreen private_mode : Bool) (rendering : Option Bool)
    → Going r
    → Going (record r {
      options = record r.options { fullscreen = fullscreen; private_mode = private_mode };
      rendering_override = rendering;
    })
set_flags-Going r fullscreen private_mode rendering g = record {
  opens = record {
    target = g.opens.target;
    app_target = g.opens.app_target;
    no_smoke = g.opens.no_smoke;
    no_probe = g.opens.no_probe;
  };
  valid = g.valid;
  no_error = g.no_error;
}

on_argument-NextOk :
    (r : LaunchOptionsParse) (h : Bool) (a : Bytes) → Going r → NextOk (on_argument r h a)
unfolding on_argument
on_argument-NextOk r h a g =
    let refused = invalidate-Result r requires_url g (λ e. cc) in
    if_intro NextOk
      (is_text a (codes "--compatibility-video-rendering")
        || is_text a (codes "--fix-broken-video"))
      _ _ (λ _. set_flags-Going r _ _ _ g)
      λ _.
        if_intro NextOk (is_text a (codes "--accelerated-video-rendering")) _ _
          (λ _. set_flags-Going r _ _ _ g)
          λ _.
            if_intro NextOk (is_text a (codes "--fullscreen")) _ _ (λ _. set_flags-Going r _ _ _ g)
              λ _.
                if_intro NextOk (is_text a (codes "--private")) _ _ (λ _. set_flags-Going r _ _ _ g)
                  λ _.
                    if_intro NextOk (is_text a (codes "--app")) _ _
                      (λ _. if_intro NextOk h _ _ (λ _. refused) (λ _. g))
                      λ _.
                        if_intro NextOk (starts_with (codes "--app=") a) _ _
                          (λ _.
                            if_intro NextOk (h || is_empty (drop 6 a)) _ _ (λ _. refused)
                              (λ _. open_app-NextOk r (drop 6 a) g))
                          λ _. on_other-NextOk r h a g

finish-Result : (r : LaunchOptionsParse) → Going r → Result (finish r)
unfolding finish
finish-Result r g = elim (Bool-cases (r.options.app_mode && r.options.private_mode)) [
  | inl both ↦
      rw (both, finish)
        (invalidate-Result r (codes "--app and --private cannot be used together") g (λ e. cc))
  | inr fine ↦
      rw (fine, finish)
        (record { opens = g.opens; reports = rw g.valid g.no_error; exclusive = λ _. fine })
]

round-NextOk :
    (waiting : Bool) (r : LaunchOptionsParse) (h : Bool) (a : Bytes)
    → Going r
    → NextOk (if waiting then on_app_value r a else on_argument r h a)
round-NextOk true r h a g = on_app_value-NextOk r a g
round-NextOk false r h a g = on_argument-NextOk r h a g

Next-cases :
    (n : Next)
    → ((r : LaunchOptionsParse) × (h : Bool) × (n ≡ carry_on r h))
      ⊎ ((r : LaunchOptionsParse) × (n ≡ wait_value r))
      ⊎ ((r : LaunchOptionsParse) × (n ≡ stop r))
Next-cases (carry_on r h) = inl (r, h, refl)
Next-cases (wait_value r) = inr (inl (r, refl))
Next-cases (stop r) = inr (inr (r, refl))

parse_loop-Result :
    (arguments : List Bytes) (waiting : Bool) (r : LaunchOptionsParse) (h : Bool)
    → Going r
    → Result (parse_loop arguments waiting r h)
unfolding parse_loop
parse_loop-Result [] true r h g = invalidate-Result r requires_url g (λ e. cc)
parse_loop-Result [] false r h g = finish-Result r g
parse_loop-Result (a ∷ rest) waiting r h g =
    let kept = round-NextOk waiting r h a g in
    elim (Next-cases (if waiting then on_app_value r a else on_argument r h a)) [
      | inl (q, k, e) ↦ rw (e, parse_loop) (parse_loop-Result rest false q k (subst NextOk e kept))
      | inr (inl (q, e)) ↦
          rw (e, parse_loop) (parse_loop-Result rest true q h (subst NextOk e kept))
      | inr (inr (q, e)) ↦ rw (e, parse_loop) (subst NextOk e kept)
    ]

-- Whatever the arguments: a valid result has no message and an invalid one has a message; a valid
-- result is never both an application window and private; the address is the start page or looks
-- like an address, and an application window's does; and the test switches stay off.
pub parse_launch_options-Result : (arguments : List Bytes) → Result (parse_launch_options arguments)
unfolding parse_launch_options default_parse
parse_launch_options-Result arguments =
    parse_loop-Result arguments false default_parse false (record {
      opens = record { target = inl refl; app_target = λ e. cc; no_smoke = refl; no_probe = refl };
      valid = refl;
      no_error = refl;
    })
