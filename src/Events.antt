-- ===== src/Events.antt =====
-- src/agent_rpc.h and src/agent_rpc.cpp, `AgentEventLog`: a bounded log of numbered events. Every
-- method holds the log's mutex, so calls are atomic steps. Sequence numbers are 64-bit and wrap.
pub mod Laws
pub mod Refinement
pub mod Tests
use vant.Prelude.{
  ℕ, ◌+◌, ◌-◌, ◌%◌, ◌^◌, max, Bool, List, [], ◌∷◌, ◌++◌, length, drop, ltb, leb, if◌then◌else◌,
  Bytes,
}

pub record AgentEvent : Type 0 where
  pub sequence : ℕ
  pub kind : Bytes
  pub payload_json : Bytes

pub record AgentEventLog : Type 0 where
  pub events : List AgentEvent
  pub capacity : ℕ
  pub next : ℕ
  pub dropped : ℕ

unfoldable pub create : ℕ → AgentEventLog
create capacity = record { events = []; capacity = max 1 capacity; next = 1; dropped = 0 }

-- `pop_front` on an empty deque cannot happen: the capacity is at least 1.
unfoldable pub publish : AgentEventLog → Bytes → Bytes → AgentEventLog × ℕ
publish l kind payload =
    let event : AgentEvent = record { sequence = l.next; kind = kind; payload_json = payload } in
    let full = leb l.capacity (length l.events) in
    (
      record l {
        events = (if full then drop 1 l.events else l.events) ++ (event ∷ []);
        next = (l.next + 1) % 2 ^ 64;
        dropped = if full then (l.dropped + 1) % 2 ^ 64 else l.dropped;
      },
      l.next,
    )

-- The loop of `since`: `taken` is `out.size()`.
unfoldable pub since_loop : ℕ → ℕ → List AgentEvent → ℕ → List AgentEvent
since_loop after limit [] taken = []
since_loop after limit (e ∷ es) taken =
    let rest = since_loop after limit es (if ltb after e.sequence then taken + 1 else taken) in
    if ltb after e.sequence then (if leb limit (taken + 1) then e ∷ [] else e ∷ rest) else rest

unfoldable pub since : AgentEventLog → ℕ → ℕ → List AgentEvent
unfolding since_loop
since l after limit = since_loop after limit l.events 0

-- `next_ - 1` on a `std::uint64_t`.
unfoldable pub latest : AgentEventLog → ℕ
latest l = (l.next + 2 ^ 64 - 1) % 2 ^ 64

unfoldable pub clear : AgentEventLog → AgentEventLog
clear l = record l { events = []; dropped = 0 }
