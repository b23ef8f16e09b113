-- ===== src/Agent/Events.antt =====
-- src/native_app.cpp, `events.since`: the reply is an object of JSON.
use vant.Prelude.{
  ℕ, ◌+◌, ◌≡◌, ◌∙◌, refl, ap, false, List, [], ◌∷◌, ◌++◌, append_assoc, if◌then◌else◌, if_intro,
  Bytes, codes, ltb, leb, All,
}
use vant.Decimal.{to_string}
use vant.Json.{json_string, json_escape, escape_byte}
use vant.Events.{AgentEvent, AgentEventLog, since, since_loop, latest}
use vant.Rpc.Values.{
  Value, Items, no_items, item, Members, no_members, member, word, text, array, object, print,
  print_items, separated_items, print_members, separated_members, IsSound, AreSound, MembersSound,
}
use vant.Rpc.Numbers.{to_string-IsSound}
use vant.Agent.{with_commas, listed}
use vant.Agent.Data.{event_json, events_json}

-- The payload is a value of JSON.
abbrev pub Told : AgentEvent → Type 0
Told e = (v : Value) × IsSound v × (e.payload_json ≡ print v)

abbrev event_value : AgentEvent → Value → Value
event_value e v = object (
    member (codes "sequence") (word (to_string e.sequence))
      (member (codes "type") (text e.kind) (member (codes "data") v no_members)))

key_texts :
    (json_string (codes "sequence") ≡ codes "\"sequence\"")
    × (json_string (codes "type") ≡ codes "\"type\"")
    × (json_string (codes "data") ≡ codes "\"data\"")
    × (json_string (codes "latest") ≡ codes "\"latest\"")
    × (json_string (codes "dropped") ≡ codes "\"dropped\"")
    × (json_string (codes "events") ≡ codes "\"events\"")
unfolding json_string json_escape escape_byte
key_texts = (refl, refl, refl, refl, refl, refl)

event_json-print :
    (e : AgentEvent) (v : Value) → e.payload_json ≡ print v → event_json e ≡ print (event_value e v)
unfolding print print_members separated_members
event_json-print e v h =
    let (sequence, kind, data_key, latest_key, dropped, events) = key_texts in
    rw
      (
        h,
        sequence,
        kind,
        data_key,
        append_assoc (to_string e.sequence),
        append_assoc (json_string e.kind),
        append_assoc (print v),
      )
      refl

event_value-IsSound : (e : AgentEvent) (v : Value) → IsSound v → IsSound (event_value e v)
unfolding IsSound MembersSound
event_value-IsSound e v h = (to_string-IsSound e.sequence, (tt, (h, tt)))

separated-print :
    (es : List AgentEvent)
    → All Told es
    → (items : Items) × AreSound items × (with_commas event_json false es ≡ separated_items items)
unfolding AreSound separated_items
separated-print [] told = (no_items, tt, refl)
separated-print (e ∷ es) ((v, sound, h), told) =
    let (items, all, rest) = separated-print es told in
    (
      item (event_value e v) items,
      (event_value-IsSound e v sound, all),
      ap (λ (t : Bytes). b',' ∷ (t ++ with_commas event_json false es)) (event_json-print e v h)
          ∙ ap (λ (t : Bytes). b',' ∷ (print (event_value e v) ++ t)) rest,
    )

listed-print :
    (es : List AgentEvent)
    → All Told es
    → (items : Items) × AreSound items × (listed event_json es ≡ print (array items))
unfolding AreSound print print_items
listed-print [] told = (no_items, tt, refl)
listed-print (e ∷ es) ((v, sound, h), told) =
    let (items, all, rest) = separated-print es told in
    (
      item (event_value e v) items,
      (event_value-IsSound e v sound, all),
      ap (λ (t : Bytes). b'[' ∷ ((t ++ with_commas event_json false es) ++ b']' ∷ []))
            (event_json-print e v h)
          ∙ ap (λ (t : Bytes). b'[' ∷ ((print (event_value e v) ++ t) ++ b']' ∷ [])) rest,
    )

since_loop-All :
    (P : AgentEvent → Type 0) (after limit : ℕ) (es : List AgentEvent) (taken : ℕ)
    → All P es
    → All P (since_loop after limit es taken)
unfolding since_loop
since_loop-All P after limit [] taken h = tt
since_loop-All P after limit (e ∷ es) taken h =
    let rest =
      since_loop-All P after limit es (if ltb after e.sequence then taken + 1 else taken) h.1 in
    if_intro (All P) (ltb after e.sequence) _ _
      (λ newer.
        if_intro (All P) (leb limit (taken + 1)) _ _ (λ full. (h.0, tt)) (λ room. (h.0, rest)))
      (λ older. rest)

abbrev reply_text : ℕ → ℕ → Bytes → Bytes
reply_text m n events =
    codes "{\"latest\":"
    ++ (to_string m
        ++ (codes ",\"dropped\":"
            ++ (to_string n ++ (codes ",\"events\":" ++ (events ++ codes "}")))))

reply_text-print :
    (m n : ℕ) (v : Value)
    → reply_text m n (print v)
      ≡ print (
          object (
            member (codes "latest") (word (to_string m)) (
              member
                (codes "dropped")
                (word (to_string n))
                (member (codes "events") v no_members))))
unfolding print print_members separated_members
reply_text-print m n v =
    let (sequence, kind, data_key, latest_key, dropped, events) = key_texts in
    rw
      (
        latest_key,
        dropped,
        events,
        append_assoc (to_string m),
        append_assoc (to_string n),
        append_assoc (print v),
      )
      refl

-- The reply's result is an object of JSON, where the payloads are.
pub events_json-print :
    (l : AgentEventLog) (after limit : ℕ)
    → All Told l.events
    → (members : Members) × IsSound (object members)
      × (events_json l after limit ≡ print (object members))
unfolding since events_json IsSound MembersSound
events_json-print l after limit told =
    let (items, sound, same) =
      listed-print (since l after limit) (since_loop-All Told after limit l.events 0 told) in
    (
      member (codes "latest") (word (to_string (latest l))) (
          member (codes "dropped") (word (to_string l.dropped))
            (member (codes "events") (array items) no_members)),
      (to_string-IsSound (latest l), (to_string-IsSound l.dropped, (sound, tt))),
      ap (λ (t : Bytes). reply_text (latest l) l.dropped t) same
          ∙ reply_text-print (latest l) l.dropped (array items),
    )
