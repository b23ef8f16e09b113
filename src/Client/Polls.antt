-- ===== src/Client/Polls.antt =====
-- src/agent_rpc.cpp, `vant agent watch`: the request of a round, and what the browser of
-- src/native_app.cpp makes of it.
use vant.Prelude.{
  ℕ, ◌^◌, ◌<◌, ◌≢◌, ◌≡◌, ◌∙◌, refl, sym, [], ◌∷◌, ◌++◌, append_assoc, Option, none, some, arith,
  Bytes, bytes_eq, codes, pos, All,
}
use vant.Decimal.{to_string, IsDigit, to_string-IsDigit}
use vant.Strings.{find_text, starts_with, cut, is_space, is_empty}
use vant.Json.{json_string, json_escape, escape_byte}
use vant.Rpc.{
  AgentRequest, agent_ok, field, locate, read_value, value_text, drop_spaces, skip_spaces,
  leading_number, stoll, json_param_integer,
}
use vant.Rpc.Fields.{passed_block, passed_prefix}
use vant.Rpc.Values.{
  Members, no_members, member, word, object, print, print_members, separated_members, IsSound,
  MembersSound,
}
use vant.Rpc.Numbers.{to_string-IsSound, value_at-to_string, stoll-to_string}
use vant.Downloads.{Owner}
use vant.Agent.{Host, Dispatched, replied, elsewhere, thrown}
use vant.Agent.Data.{events_json, events_since}
use vant.Agent.Dispatch.{methods, dispatch}

abbrev replied_text : Dispatched → Option Bytes
replied_text (replied reply o) = some reply
replied_text elsewhere = none
replied_text thrown = none

-- The handler of a browser whose requests are answered at once.
abbrev pub answers : Host → Owner → AgentRequest → Option Bytes
answers h o r = replied_text (dispatch h r o)

-- What `watch` sends.
abbrev pub watched : ℕ → Members
watched after =
    member (codes "after") (word (to_string after))
      (member (codes "limit") (word (codes "256")) no_members)

abbrev pub params : ℕ → Bytes
params after = codes "{\"after\":" ++ (to_string after ++ codes ",\"limit\":256}")

pub watched-IsSound : (after : ℕ) → IsSound (object (watched after))
unfolding IsSound MembersSound
watched-IsSound after = (to_string-IsSound after, ((refl, (refl, (refl, tt))), tt))

key_texts :
    (json_string (codes "after") ≡ codes "\"after\"")
    × (json_string (codes "limit") ≡ codes "\"limit\"")
unfolding json_string json_escape escape_byte
key_texts = (refl, refl)

pub params-print : (after : ℕ) → params after ≡ print (object (watched after))
unfolding print print_members separated_members
params-print after =
    let (after_key, limit_key) = key_texts in
    rw (after_key, limit_key, append_assoc (to_string after)) refl

locate-after :
    (after : ℕ)
    → locate (params after) (codes "after") ≡ some (to_string after ++ codes ",\"limit\":256}")
unfolding locate find_text starts_with cut
locate-after after = refl

digits-NoQuote : (w : Bytes) → All IsDigit w → All (λ (y : ℕ). y ≢ b'"') w
digits-NoQuote [] h = tt
digits-NoQuote (c ∷ w) h = (ground (arith, h.0), digits-NoQuote w h.1)

locate-limit : (after : ℕ) → locate (params after) (codes "limit") ≡ some (codes "256}")
unfolding locate find_text starts_with cut
locate-limit after =
    passed_prefix (codes "limit") (codes "{\"after\":") (to_string after ++ codes ",\"limit\":256}")
      (ground arith)
    ∙ passed_block (codes "limit") (to_string after) (codes ",\"limit\":256}")
        (digits-NoQuote (to_string after) (to_string-IsDigit after))

after-read :
    (after : ℕ)
    → after < 2 ^ 63
    → json_param_integer (params after) (codes "after") (pos 0) ≡ pos after
unfolding json_param_integer field
after-read after small =
    rw
      (
        locate-after after,
        value_at-to_string after b',' (codes "\"limit\":256}") refl,
        stoll-to_string after small,
      )
      refl

limit-read : (after : ℕ) → json_param_integer (params after) (codes "limit") (pos 256) ≡ pos 256
unfolding json_param_integer field skip_spaces is_space read_value value_text drop_spaces is_empty
    stoll leading_number
limit-read after = rw (locate-limit after) refl

-- The dispatcher's answer to what `watch` sends.
pub answers-watched :
    (h : Host) (o : Owner) (after : ℕ)
    → after < 2 ^ 63
    → answers h o (record {
      id = codes "cli";
      method = codes "events.since";
      params_json = print (object (watched after));
    })
      ≡ some (agent_ok (codes "cli") (events_json o.app.agent_events after 256))
unfolding dispatch methods bytes_eq events_since
answers-watched h o after small =
    rw (sym (params-print after), after-read after small, limit-read after) refl
