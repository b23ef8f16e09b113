-- ===== src/Events/Laws.antt =====
-- The event log of agent_rpc.cpp: its window of sequence numbers, and what a reader gets.
use vant.Prelude.{
  ℕ, zero, suc, ◌+◌, ◌-◌, ◌%◌, ◌^◌, ◌∙◌, ◌≤◌, ◌<◌, ◌≡◌, refl, ap, inl, inr, max, List, [], ◌∷◌,
  ◌++◌, arith, length, take, take-nil, drop, length-append, ltb, leb, if◌then◌else◌, Bytes,
  Bool-cases,
}
use vant.Events.{AgentEvent, AgentEventLog, create, publish, since, since_loop, clear}

-- The sequence numbers along the list are `from`, `from + 1`, … up to `to`, which is not there.
abbrev pub Runs : ℕ → ℕ → List AgentEvent → Type 0
Runs from to [] = from ≡ to
Runs from to (e ∷ es) = (e.sequence ≡ from) × Runs (from + 1) to es

-- The log holds the last events published, in order and without a gap, and no more than fit.
pub record Inv (l : AgentEventLog) : Type 0 where
  pub first : ℕ
  pub runs : Runs first l.next l.events
  pub fits : length l.events ≤ l.capacity
  pub room : 1 ≤ l.capacity
  pub started : 1 ≤ first

-- The counter has not reached the end of its 64 bits.
abbrev pub HasNumbers : AgentEventLog → Type 0
HasNumbers l = l.next + 1 < 2 ^ 64

pub create-Inv : (capacity : ℕ) → Inv (create capacity)
unfolding create
create-Inv capacity = record {
  first = 1;
  runs = refl;
  fits = omega arith;
  room = omega arith;
  started = omega arith;
}

Runs-le : (a b : ℕ) (es : List AgentEvent) → Runs a b es → a ≤ b
Runs-le a b [] h = omega arith
Runs-le a b (e ∷ es) (h, hs) = omega (arith, Runs-le (a + 1) b es hs)

pub clear-Inv : (l : AgentEventLog) → Inv l → Inv (clear l)
unfolding clear
clear-Inv l v = record {
  first = l.next;
  runs = refl;
  fits = omega arith;
  room = v.room;
  started = omega (arith, Runs-le v.first l.next l.events v.runs, v.started);
}

Runs-concat :
    (a b : ℕ) (es : List AgentEvent) (e : AgentEvent)
    → Runs a b es
    → e.sequence ≡ b
    → Runs a (b + 1) (es ++ (e ∷ []))
Runs-concat a b [] e h n = (omega arith, omega arith)
Runs-concat a b (x ∷ es) e (h, hs) n = (h, Runs-concat (a + 1) b es e hs n)

length-drop_one : (es : List AgentEvent) → length (drop 1 es) ≡ length es - 1
length-drop_one [] = refl
length-drop_one (e ∷ es) = omega arith

-- Dropping the oldest event leaves the window one shorter.
Runs-drop :
    (a b : ℕ) (es : List AgentEvent) → Runs a b es → 1 ≤ length es → Runs (a + 1) b (drop 1 es)
Runs-drop a b [] h n = absurd (omega arith)
Runs-drop a b (e ∷ es) h n = h.1

bump : (n : ℕ) → n + 1 < 2 ^ 64 → (n + 1) % 2 ^ 64 ≡ n + 1
bump n h = omega arith

-- While numbers are left, publishing keeps the log a run of consecutive sequence numbers that ends
-- just before the next one, and within its capacity.
pub publish-Inv :
    (l : AgentEventLog) (kind payload : Bytes)
    → Inv l
    → HasNumbers l
    → Inv (publish l kind payload).0
unfolding publish
publish-Inv l kind payload v room = elim (Bool-cases (leb l.capacity (length l.events))) [
  | inl full ↦
      rw (bump l.next room, full, publish)
        (record {
          first = v.first + 1;
          runs =
              Runs-concat (v.first + 1) l.next (drop 1 l.events) _
                (Runs-drop v.first l.next l.events v.runs (ground (arith, v.room))) refl;
          fits = ground (
            arith,
            length-append (drop 1 l.events) (event ∷ []),
            length-drop_one l.events,
            v.fits,
            v.room,
          );
          room = v.room;
          started = omega arith;
        })
  | inr free ↦
      rw (bump l.next room, free, publish)
        (record {
          first = v.first;
          runs = Runs-concat v.first l.next l.events _ v.runs refl;
          fits = ground (arith, length-append l.events (event ∷ []));
          room = v.room;
          started = v.started;
        })
]
  where
    event : AgentEvent
    event = record { sequence = l.next; kind = kind; payload_json = payload }

-- The events of the log behind `after`, oldest first.
abbrev pub newer : ℕ → List AgentEvent → List AgentEvent
newer after [] = []
newer after (e ∷ es) = if ltb after e.sequence then e ∷ newer after es else newer after es

since_loop-take :
    (after limit : ℕ) (es : List AgentEvent) (taken k : ℕ)
    → taken + suc k ≡ max 1 limit
    → since_loop after limit es taken ≡ take (suc k) (newer after es)
unfolding since_loop
since_loop-take after limit [] taken k h = refl
since_loop-take after limit (e ∷ es) taken zero h =
    ground (arith, since_loop-take after limit es taken zero)
since_loop-take after limit (e ∷ es) taken (suc k) h = ground (
  arith,
  since_loop-take after limit es (taken + 1) k,
  since_loop-take after limit es taken (suc k),
)

-- A reader gets the oldest events behind `after`, `limit` of them at most; a limit of 0 is read as 1.
pub since-take :
    (l : AgentEventLog) (after limit : ℕ)
    → since l after limit ≡ take (max 1 limit) (newer after l.events)
unfolding since
since-take l after limit =
    let n = max 1 limit - 1 in
    let whole : suc n ≡ max 1 limit = omega arith in
    since_loop-take after limit l.events 0 n (omega arith)
    ∙ ap (λ k. take k (newer after l.events)) whole

newer-all :
    (from to after : ℕ) (es : List AgentEvent)
    → Runs from to es
    → after < from
    → newer after es ≡ es
newer-all from to after [] h lt = refl
newer-all from to after (e ∷ es) (h, hs) lt = ground (arith, newer-all (from + 1) to after es hs)

newer-Runs :
    (from to after : ℕ) (es : List AgentEvent)
    → Runs from to es
    → from ≤ after + 1
    → after < to
    → Runs (after + 1) to (newer after es)
newer-Runs from to after [] h low high = omega arith
newer-Runs from to after (e ∷ es) (h, hs) low high =
    ground (arith, newer-all (from + 1) to after es hs, newer-Runs (from + 1) to after es hs)

-- In a log that has kept everything from `after + 1` on, `since` returns, of the events numbered
-- `after + 1`, `after + 2`, … up to the latest, the first ones: `limit` many at most, or one where
-- the limit is 0.
pub since-Runs :
    (l : AgentEventLog) (after limit : ℕ) (v : Inv l)
    → v.first ≤ after + 1
    → after < l.next
    → (es : List AgentEvent) × Runs (after + 1) l.next es
      × (since l after limit ≡ take (max 1 limit) es)
since-Runs l after limit v low high = (
  newer after l.events,
  newer-Runs v.first l.next after l.events v.runs low high,
  since-take l after limit,
)

newer-concat :
    (after : ℕ) (es : List AgentEvent) (e : AgentEvent)
    → after < e.sequence
    → newer after (es ++ (e ∷ [])) ≡ newer after es ++ (e ∷ [])
newer-concat after [] e h = ground arith
newer-concat after (x ∷ es) e h = ground (arith, newer-concat after es e h)

newer-none :
    (from to after : ℕ) (es : List AgentEvent)
    → Runs from to es
    → to ≤ after + 1
    → newer after es ≡ []
newer-none from to after [] h le = refl
newer-none from to after (e ∷ es) (h, hs) le =
    ground (arith, newer-none (from + 1) to after es hs, Runs-le (from + 1) to es hs)

-- What stands in front of the event that was published last.
publish-shape :
    (l : AgentEventLog) (kind payload : Bytes)
    → Inv l
    → (from : ℕ) × (es : List AgentEvent) × Runs from l.next es
      × ((publish l kind payload).0.events
          ≡ es ++ (record { sequence = l.next; kind = kind; payload_json = payload } ∷ []))
unfolding publish
publish-shape l kind payload v = elim (Bool-cases (leb l.capacity (length l.events))) [
  | inl full ↦ (
    v.first + 1,
    drop 1 l.events,
    Runs-drop v.first l.next l.events v.runs (ground (arith, v.room)),
    rw full,
  )
  | inr free ↦ (v.first, l.events, v.runs, rw free)
]

-- Right after an event is published, a reader that saw all the earlier ones gets that event alone.
pub since-publish :
    (l : AgentEventLog) (kind payload : Bytes) (limit : ℕ)
    → Inv l
    → HasNumbers l
    → since (publish l kind payload).0 (l.next - 1) limit
      ≡ record { sequence = l.next; kind = kind; payload_json = payload } ∷ []
since-publish l kind payload limit v room =
    let (from, es, runs, shape) = publish-shape l kind payload v in
    let low = Runs-le v.first l.next l.events v.runs in
    let whole : max 1 limit ≡ suc (max 1 limit - 1) = omega arith in
    rw
      (
        since-take,
        shape,
        newer-concat (l.next - 1) es event (omega (arith, v.started)),
        newer-none from l.next (l.next - 1) es runs (omega arith),
        whole,
      )
      (ap (◌∷◌ event) (take-nil (max 1 limit - 1)))
  where
    event : AgentEvent
    event = record { sequence = l.next; kind = kind; payload_json = payload }
