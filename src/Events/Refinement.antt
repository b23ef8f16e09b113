-- ===== src/Events/Refinement.antt =====
-- The event log of agent_rpc.cpp against a log without a bound.
use vant.Prelude.{
  ℕ, zero, suc, ◌+◌, ◌-◌, ◌%◌, ◌^◌, ◌∙◌, ◌≤◌, ◌<◌, ◌≡◌, refl, ap, inl, inr, max, List, [], ◌∷◌,
  ◌++◌, arith, length, take, drop, length-append, leb, Bytes, Bool-cases,
}
use vant.Events.{AgentEvent, AgentEventLog, create, publish, since, clear}
use vant.Events.Laws.{newer, since-take}

-- The calls that change a log.
pub data Change : Type 0 where
  publishes : Bytes → Bytes → Change
  clears : Change

unfoldable pub run : List Change → AgentEventLog → AgentEventLog
run [] l = l
run (publishes kind payload ∷ rest) l = run rest (publish l kind payload).0
run (clears ∷ rest) l = run rest (clear l)

-- A log that keeps everything since it was cleared.
pub record Unbounded : Type 0 where
  pub all : List AgentEvent
  pub next : ℕ

-- The same calls, on a log without a bound.
abbrev pub replay : List Change → Unbounded → Unbounded
replay [] u = u
replay (publishes kind payload ∷ rest) u = replay rest (record {
  all = u.all ++ (record { sequence = u.next; kind = kind; payload_json = payload } ∷ []);
  next = (u.next + 1) % 2 ^ 64;
})
replay (clears ∷ rest) u = replay rest (record { all = []; next = u.next })

-- The last `n` of a list.
abbrev pub last : ℕ → List AgentEvent → List AgentEvent
last n es = drop (length es - n) es

-- A log holds the last events of the one without a bound, and has counted the others.
pub record Refines (l : AgentEventLog) (u : Unbounded) : Type 0 where
  pub room : 1 ≤ l.capacity
  pub kept : l.events ≡ last l.capacity u.all
  pub numbered : l.next ≡ u.next
  pub counted : l.dropped ≡ (length u.all - l.capacity) % 2 ^ 64

drop-append :
    (n : ℕ) (es fs : List AgentEvent) → n ≤ length es → drop n (es ++ fs) ≡ drop n es ++ fs
drop-append zero es fs h = refl
drop-append (suc n) [] fs h = absurd (omega arith)
drop-append (suc n) (e ∷ es) fs h = drop-append n es fs (omega arith)

drop_one-drop : (n : ℕ) (es : List AgentEvent) → drop 1 (drop n es) ≡ drop (suc n) es
drop_one-drop zero es = refl
drop_one-drop (suc n) [] = refl
drop_one-drop (suc n) (e ∷ es) = drop_one-drop n es

length-drop : (n : ℕ) (es : List AgentEvent) → length (drop n es) ≡ length es - n
length-drop zero es = omega arith
length-drop (suc n) [] = omega arith
length-drop (suc n) (e ∷ es) = omega (arith, length-drop n es)

-- One more event, where all fit and where one must go.
last-short :
    (n : ℕ) (es : List AgentEvent) (e : AgentEvent)
    → length es < n
    → last n es ++ (e ∷ []) ≡ last n (es ++ (e ∷ []))
last-short n es e h =
    let none_gone : length es - n ≡ 0 = omega arith in
    let none_goes : length (es ++ (e ∷ [])) - n ≡ 0 = omega (arith, length-append es (e ∷ [])) in
    rw (none_gone, none_goes) refl

last-full :
    (n : ℕ) (es : List AgentEvent) (e : AgentEvent)
    → 1 ≤ n
    → n ≤ length es
    → drop 1 (last n es) ++ (e ∷ []) ≡ last n (es ++ (e ∷ []))
last-full n es e room h =
    let one_more : length (es ++ (e ∷ [])) - n ≡ suc (length es - n) =
      omega (arith, length-append es (e ∷ [])) in
    rw
      (
        one_more,
        drop_one-drop (length es - n) es,
        drop-append (suc (length es - n)) es (e ∷ []) (omega arith),
      )
      refl

create-Refines : (capacity : ℕ) → Refines (create capacity) (record { all = []; next = 1 })
unfolding create
create-Refines capacity = record {
  room = omega arith;
  kept = ap (λ n. drop n []) none;
  numbered = refl;
  counted = ap (λ n. n % 2 ^ 64) none;
}
  where
    none : 0 ≡ 0 - max 1 capacity
    none = omega arith

bump : (n : ℕ) → (n % 2 ^ 64 + 1) % 2 ^ 64 ≡ (n + 1) % 2 ^ 64
bump n = omega arith

publish-Refines :
    (l : AgentEventLog) (u : Unbounded) (kind payload : Bytes)
    → Refines l u
    → Refines (publish l kind payload).0 (record {
      all = u.all ++ (record { sequence = u.next; kind = kind; payload_json = payload } ∷ []);
      next = (u.next + 1) % 2 ^ 64;
    })
unfolding publish
publish-Refines l u kind payload v = elim (Bool-cases (leb l.capacity (length l.events))) [
  | inl full ↦
      let here : l.capacity ≤ length u.all = ground (arith, held, v.room, full) in
      record {
        room = v.room;
        kept = rw (full, v.kept, v.numbered) (last-full l.capacity u.all event v.room here);
        numbered = ap (λ n. (n + 1) % 2 ^ 64) v.numbered;
        counted = rw (full, v.counted, length-append u.all (event ∷ [])) (omega (arith, here));
      }
  | inr free ↦
      let here : length u.all < l.capacity = ground (arith, held, v.room, free) in
      record {
        room = v.room;
        kept = rw (free, v.kept, v.numbered) (last-short l.capacity u.all event here);
        numbered = ap (λ n. (n + 1) % 2 ^ 64) v.numbered;
        counted = rw (free, v.counted, length-append u.all (event ∷ [])) (omega (arith, here));
      }
]
  where
    event : AgentEvent
    event = record { sequence = u.next; kind = kind; payload_json = payload }

    held : length l.events ≡ length u.all - (length u.all - l.capacity)
    held = ap length v.kept ∙ length-drop (length u.all - l.capacity) u.all

clear-Refines :
    (l : AgentEventLog) (u : Unbounded)
    → Refines l u
    → Refines (clear l) (record { all = []; next = u.next })
unfolding clear
clear-Refines l u v = record {
  room = v.room;
  kept = ap (λ n. drop n []) none;
  numbered = v.numbered;
  counted = ap (λ n. n % 2 ^ 64) none;
}
  where
    none : 0 ≡ 0 - l.capacity
    none = omega arith

run-Refines :
    (changes : List Change) (l : AgentEventLog) (u : Unbounded)
    → Refines l u
    → Refines (run changes l) (replay changes u)
unfolding run
run-Refines [] l u v = v
run-Refines (publishes kind payload ∷ rest) l u v =
    run-Refines rest _ _ (publish-Refines l u kind payload v)
run-Refines (clears ∷ rest) l u v = run-Refines rest _ _ (clear-Refines l u v)

run-capacity : (changes : List Change) (l : AgentEventLog) → (run changes l).capacity ≡ l.capacity
unfolding run publish clear
run-capacity [] l = refl
run-capacity (publishes kind payload ∷ rest) l = run-capacity rest _
run-capacity (clears ∷ rest) l = run-capacity rest _

-- After any publications and clearings of a new log, with whatever capacity, the log holds just the
-- last events of a log that keeps everything since it was cleared, as many as the capacity says and
-- one at least; it numbers the next event as that one does and has counted the events it lost, modulo
-- 2 ^ 64; and a reader gets the first `limit`, or one where that is 0, of the kept ones behind `after`.
pub run-create-Refines :
    (capacity : ℕ) (changes : List Change)
    → let l = run changes (create capacity) in
      let u = replay changes (record { all = []; next = 1 }) in
      let n = max 1 capacity in
      (l.events ≡ last n u.all)
      × (l.next ≡ u.next)
      × (l.dropped ≡ (length u.all - n) % 2 ^ 64)
      × ((after limit : ℕ) → since l after limit ≡ take (max 1 limit) (newer after (last n u.all)))
unfolding create
run-create-Refines capacity changes =
    let l = run changes (create capacity) in
    let u = replay changes (record { all = []; next = 1 }) in
    let v = run-Refines changes (create capacity) _ (create-Refines capacity) in
    let same : l.capacity ≡ max 1 capacity = run-capacity changes (create capacity) in
    let kept = v.kept ∙ ap (λ n. last n u.all) same in
    (
      kept,
      v.numbered,
      v.counted ∙ ap (λ n. (length u.all - n) % 2 ^ 64) same,
      λ after limit. since-take l after limit ∙ ap (λ es. take (max 1 limit) (newer after es)) kept,
    )
