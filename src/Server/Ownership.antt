-- ===== src/Server/Ownership.antt =====
-- src/agent_rpc.cpp: a server takes the socket's path from no process that listens there.
use vant.Prelude.{◌≡◌, refl, true, false, ◌&&◌, some, arith}
use vant.Server.{
  Place, absent, stale, other, own, Calls, is_listened, clear_place, take_place, start, stop,
}

-- Every call succeeds.
abbrev pub AllSucceed : Calls → Type 0
AllSucceed calls =
    (calls.opens && calls.closes_on_exec && calls.short && calls.binds && calls.restricts
      && calls.listens)
    ≡ true

start_idle :
    (calls : Calls) (place q : Place) (meanwhile : Place → Place)
    → clear_place calls place ≡ some q
    → start calls meanwhile (record { running = false; place = place })
      ≡ take_place calls (meanwhile q)
unfolding start
start_idle calls place q meanwhile free = rw free refl

-- Where another window listens at the path and a socket can be made to ask it, a start fails and
-- leaves everything as it was, whatever happens meanwhile.
pub start-other :
    (calls : Calls) (meanwhile : Place → Place)
    → (calls.probes && calls.short) ≡ true
    → start calls meanwhile (record { running = false; place = other })
      ≡ (record { running = false; place = other }, false)
unfolding start clear_place
start-other calls meanwhile asks =
    let here : (calls.probes && calls.short && is_listened other) ≡ true = ground (arith, asks) in
    rw here refl

-- Where no process listens at the path and every call succeeds, a start makes it the server's own,
-- and stopping removes it; a second start before that changes nothing.
pub stop-start :
    (calls : Calls) (place : Place)
    → is_listened place ≡ false
    → AllSucceed calls
    → let (s, started) = start calls (λ p. p) (record { running = false; place = place }) in
      (started ≡ true)
      × (s ≡ record { running = true; place = own })
      × (start calls (λ p. p) s ≡ (s, true))
      × (stop s ≡ record { running = false; place = absent })
unfolding start clear_place take_place stop
stop-start calls absent quiet works = ground (arith, works)
stop-start calls stale quiet works = ground (arith, works)
stop-start calls other quiet works = ground (arith, quiet)
stop-start calls own quiet works = ground (arith, quiet)

-- A window that takes the path after this one has looked at it and before it binds loses it: the
-- start fails at `bind`, and the failure removes the path that is the other window's by then.
pub start-raced :
    (calls : Calls) (place : Place)
    → is_listened place ≡ false
    → (calls.opens && calls.closes_on_exec && calls.short) ≡ true
    → start calls (λ p. other) (record { running = false; place = place })
      ≡ (record { running = false; place = absent }, false)
unfolding start clear_place take_place
start-raced calls absent quiet works = ground (arith, works)
start-raced calls stale quiet works = ground (arith, works)
start-raced calls other quiet works = ground (arith, quiet)
start-raced calls own quiet works = ground (arith, quiet)
