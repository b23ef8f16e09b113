-- ===== src/Application.antt =====
-- src/application.h and src/application.cpp: an application's name and whether it runs, beside the
-- count of live instances, a `size_t`.
use vant.Prelude.{
  ℕ, ◌+◌, ◌-◌, ◌%◌, ◌^◌, Bool, true, false, Option, none, some, if◌then◌else◌, Bytes,
}
use vant.Strings.{is_empty}

pub record Application : Type 0 where
  pub profile_name : Bytes
  pub running : Bool

-- The constructor with the count after it; `none` is an exception.
unfoldable pub create : Bytes → ℕ → Option (Application × ℕ)
create name live_instances =
    if is_empty name
    then none
    else some (record { profile_name = name; running = false }, (live_instances + 1) % 2 ^ 64)

unfoldable pub start : Application → Application
start a = record a { running = true }

unfoldable pub stop : Application → Application
stop a = record a { running = false }

-- The destructor, with the count after it.
unfoldable pub destroy : Application → ℕ → Application × ℕ
unfolding stop
destroy a live_instances = (stop a, (live_instances + 2 ^ 64 - 1) % 2 ^ 64)
