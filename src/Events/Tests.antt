-- ===== src/Events/Tests.antt =====
-- The theorems on the event log at concrete logs.
use vant.Prelude.{ℕ, ◌-◌, ◌%◌, ◌^◌, length, ◌≡◌, refl, max, [], ◌∷◌, arith, codes, take}
use vant.Events.{AgentEvent, AgentEventLog, create, since}
use vant.Events.Refinement.{publishes, clears, run, replay, last, run-create-Refines}
use vant.Events.Laws.{Inv, newer}

abbrev event_at : ℕ → AgentEvent
event_at n = record { sequence = n; kind = codes "k"; payload_json = codes "{}" }

abbrev full_log : AgentEventLog
full_log = record { events = event_at 3 ∷ event_at 4 ∷ []; capacity = 2; next = 5; dropped = 2 }

abbrev full_log-Inv : Inv full_log
full_log-Inv = record {
  first = 3;
  runs = (refl, (refl, refl));
  fits = omega arith;
  room = omega arith;
  started = omega arith;
}

-- Three events in a log of two.
run-create-Refines_example :
    let changes =
      publishes (codes "a") []
      ∷ clears
      ∷ publishes (codes "b") []
      ∷ publishes (codes "c") []
      ∷ publishes (codes "d") []
      ∷ [] in
    let l = run changes (create 2) in
    let u = replay changes (record { all = []; next = 1 }) in
    let n = max 1 2 in
    (l.events ≡ last n u.all)
    × (l.next ≡ u.next)
    × (l.dropped ≡ (length u.all - n) % 2 ^ 64)
    × ((after limit : ℕ) → since l after limit ≡ take (max 1 limit) (newer after (last n u.all)))
run-create-Refines_example = run-create-Refines 2 (
    publishes (codes "a") []
    ∷ clears
    ∷ publishes (codes "b") []
    ∷ publishes (codes "c") []
    ∷ publishes (codes "d") []
    ∷ [])
