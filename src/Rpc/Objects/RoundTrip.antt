-- ===== src/Rpc/Objects/RoundTrip.antt =====
-- src/agent_rpc.cpp: an object of strings is read as its keys and values.
use vant.Prelude.{
  ℕ, zero, suc, ◌≤◌, ◌≡◌, ◌∙◌, refl, ap, true, [], ◌∷◌, ◌++◌, append_assoc, some, arith, Bytes,
  length, length-append, drop,
}
use vant.Strings.{is_space, starts_with, ends_with_byte}
use vant.Json.{json_string}
use vant.Json.RoundTrip.{read-json_string}
use vant.Rpc.{skip_spaces, field}
use vant.Rpc.Values.{
  Members, no_members, member, text, object, print, print_members, separated_members,
}
use vant.Rpc.Objects.{
  Pairs, string_value, key_of, paired, value_behind, read_pair, after_pair, with_pair, pairs_loop,
  is_braced, opened, string_object, object_at, json_param_string_object,
}

-- The pairs as an object of JSON.
abbrev pub texts : Pairs → Members
texts [] = no_members
texts ((key, value) ∷ pairs) = member key (text value) (texts pairs)

read_pair-print :
    (key value t : Bytes)
    → read_pair (json_string key ++ b':' ∷ (json_string value ++ t)) ≡ some ((key, value), t)
unfolding read_pair
read_pair-print key value t =
    ap (λ o. value_behind (key_of o)) (quoted key _)
    ∙ ap (λ o. value_behind o) (colon key (json_string value ++ t))
    ∙ ap (paired key) (quoted value t)
  where
    quoted : (s rest : Bytes) → string_value (json_string s ++ rest) ≡ some (s, rest)
    quoted s rest = unfold skip_spaces is_space json_string in read-json_string s rest

    colon : (k rest : Bytes) → key_of (some (k, b':' ∷ rest)) ≡ some (k, rest)
    colon k rest = unfold skip_spaces is_space in refl

-- Where the object goes on, with the brace at its end.
abbrev left_over : Pairs → Bytes
left_over pairs = separated_members (texts pairs) ++ b'}' ∷ []

first_round :
    (fuel : ℕ) (key value t : Bytes) (out : Pairs)
    → pairs_loop (suc fuel) (json_string key ++ b':' ∷ (json_string value ++ t)) out
      ≡ after_pair (pairs_loop fuel) (out ++ (key, value) ∷ []) (skip_spaces t)
unfolding pairs_loop json_string
first_round fuel key value t out =
    ap (with_pair (pairs_loop fuel) out) (read_pair-print key value t)

left_over-cons :
    (key value : Bytes) (pairs : Pairs)
    → left_over ((key, value) ∷ pairs)
      ≡ b',' ∷ (json_string key ++ b':' ∷ (json_string value ++ left_over pairs))
unfolding separated_members print
left_over-cons key value pairs =
    rw (append_assoc (json_string key), append_assoc (json_string value)) refl

loop-print :
    (fuel : ℕ) (key value : Bytes) (pairs out : Pairs)
    → length pairs ≤ fuel
    → pairs_loop (suc fuel) (json_string key ++ b':' ∷ (json_string value ++ left_over pairs)) out
      ≡ some (out ++ (key, value) ∷ pairs)
unfolding skip_spaces is_space separated_members
loop-print fuel key value [] out h = first_round fuel key value (left_over []) out
loop-print zero key value (pair ∷ pairs) out h = absurd (omega arith)
loop-print (suc fuel) key value ((k, v) ∷ pairs) out h =
    first_round (suc fuel) key value (left_over ((k, v) ∷ pairs)) out
    ∙ ap (λ t. after_pair (pairs_loop (suc fuel)) (out ++ (key, value) ∷ []) (skip_spaces t))
        (left_over-cons k v pairs)
    ∙ loop-print fuel k v pairs (out ++ (key, value) ∷ []) (omega arith)
    ∙ ap (λ ps. some ps) (append_assoc out ((key, value) ∷ []) ((k, v) ∷ pairs))

length-left_over : (pairs : Pairs) → suc (length pairs) ≤ length (left_over pairs)
unfolding separated_members
length-left_over [] = omega arith
length-left_over ((key, value) ∷ pairs) =
    let tail = json_string value ++ left_over pairs in
    omega (
      arith,
      ap length (left_over-cons key value pairs),
      length-left_over pairs,
      length-append (json_string key) (b':' ∷ tail),
      length-append (json_string value) (left_over pairs),
    )

print-texts :
    (key value : Bytes) (pairs : Pairs)
    → print (object (texts ((key, value) ∷ pairs)))
      ≡ b'{' ∷ (json_string key ++ b':' ∷ (json_string value ++ left_over pairs))
unfolding print print_members
print-texts key value pairs =
    rw (append_assoc (json_string key), append_assoc (json_string value)) refl

ends_with_byte-append : (c : ℕ) (s : Bytes) → ends_with_byte c (s ++ c ∷ []) ≡ true
unfolding ends_with_byte
ends_with_byte-append c [] = ground arith
ends_with_byte-append c (x ∷ []) = ground arith
ends_with_byte-append c (x ∷ y ∷ s) = ends_with_byte-append c (y ∷ s)

is_braced-print : (members : Members) → is_braced (print (object members)) ≡ true
unfolding print starts_with
is_braced-print members = ground (
  arith,
  ends_with_byte-append b'}' (b'{' ∷ print_members members),
  length-append (print_members members) (b'}' ∷ []),
)

braced_object :
    (raw : Bytes)
    → is_braced raw ≡ true
    → string_object raw ≡ opened (length raw) (skip_spaces (drop 1 raw))
unfolding string_object
braced_object raw h = rw h refl

opened_literal :
    (fuel : ℕ) (s rest : Bytes)
    → opened fuel (skip_spaces (json_string s ++ rest)) ≡ pairs_loop fuel (json_string s ++ rest) []
unfolding skip_spaces is_space json_string
opened_literal fuel s rest = refl

string_object-print : (pairs : Pairs) → string_object (print (object (texts pairs))) ≡ some pairs
string_object-print [] =
    unfold string_object pairs_loop print print_members starts_with ends_with_byte skip_spaces
      is_space in
    refl
string_object-print ((key, value) ∷ pairs) =
    let tail = json_string value ++ left_over pairs in
    let body = json_string key ++ b':' ∷ tail in
    braced_object (print (object (texts ((key, value) ∷ pairs)))) (is_braced-print _)
    ∙ ap (λ raw. opened (length raw) (skip_spaces (drop 1 raw))) (print-texts key value pairs)
    ∙ opened_literal (suc (length body)) key (b':' ∷ tail)
    ∙ loop-print (length body) key value pairs [] (
        omega (
          arith,
          length-left_over pairs,
          length-append (json_string key) (b':' ∷ tail),
          length-append (json_string value) (left_over pairs),
        ))

-- A parameter that is an object of strings is read as its keys and values, in their order, whatever
-- bytes they hold and although keys may be equal, where the field's text is found to be the object.
pub json_param_string_object-print :
    (json key : Bytes) (pairs : Pairs)
    → field json key ≡ some (print (object (texts pairs)))
    → json_param_string_object json key ≡ some pairs
unfolding json_param_string_object
json_param_string_object-print json key pairs h = ap object_at h ∙ string_object-print pairs
