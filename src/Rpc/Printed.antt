-- ===== src/Rpc/Printed.antt =====
-- Values as clients of src/agent_rpc.cpp write them have no control byte.
use vant.Prelude.{ℕ, ◌≡◌, false, [], ◌∷◌, ◌++◌, arith, Bytes, All, All-append, ◌≤◌}
use vant.Json.{json_string}
use vant.Json.RoundTrip.{IsPrinted, json_string-IsPrinted}
use vant.Rpc.Values.{
  Value, word, text, array, object, Items, no_items, item, Members, no_members, member, print,
  print_items, separated_items, print_members, separated_members, ends_word, IsSound, AreSound,
  MembersSound,
}

-- No control byte stands in a printed value.
word-IsPrinted : (w : Bytes) → All (λ (c : ℕ). ends_word c ≡ false) w → All IsPrinted w
word-IsPrinted [] h = tt
word-IsPrinted (c ∷ w) h = (ground (arith, h.0), word-IsPrinted w h.1)

framed-IsPrinted :
    (a b : ℕ) (s : Bytes) → 32 ≤ a → 32 ≤ b → All IsPrinted s → All IsPrinted (a ∷ (s ++ b ∷ []))
framed-IsPrinted a b s h k all = (h, All-append IsPrinted s (b ∷ []) all (k, tt))

mutual
  unfolding print print_items separated_items print_members separated_members IsSound AreSound
      MembersSound

  pub print-IsPrinted : (v : Value) → IsSound v → All IsPrinted (print v)
  print-IsPrinted (word w) h = word-IsPrinted w h
  print-IsPrinted (text s) h = json_string-IsPrinted s
  print-IsPrinted (array items) h =
      framed-IsPrinted b'[' b']' (print_items items) (omega arith) (omega arith)
        (items-IsPrinted items h)
  print-IsPrinted (object members) h =
      framed-IsPrinted b'{' b'}' (print_members members) (omega arith) (omega arith)
        (members-IsPrinted members h)

  items-IsPrinted : (items : Items) → AreSound items → All IsPrinted (print_items items)
  items-IsPrinted no_items h = tt
  items-IsPrinted (item v items) h =
      All-append IsPrinted (print v) (separated_items items) (print-IsPrinted v h.0)
        (separated_items-IsPrinted items h.1)

  separated_items-IsPrinted :
      (items : Items) → AreSound items → All IsPrinted (separated_items items)
  separated_items-IsPrinted no_items h = tt
  separated_items-IsPrinted (item v items) h = (
    omega arith,
    All-append IsPrinted (print v) (separated_items items) (print-IsPrinted v h.0)
        (separated_items-IsPrinted items h.1),
  )

  members-IsPrinted :
      (members : Members) → MembersSound members → All IsPrinted (print_members members)
  members-IsPrinted no_members h = tt
  members-IsPrinted (member k v members) h =
      All-append IsPrinted (json_string k) (b':' ∷ (print v ++ separated_members members))
        (json_string-IsPrinted k)
        (
          omega arith,
          All-append IsPrinted (print v) (separated_members members) (print-IsPrinted v h.0)
              (separated_members-IsPrinted members h.1),
        )

  separated_members-IsPrinted :
      (members : Members) → MembersSound members → All IsPrinted (separated_members members)
  separated_members-IsPrinted no_members h = tt
  separated_members-IsPrinted (member k v members) h = (
    omega arith,
    All-append IsPrinted (json_string k) (b':' ∷ (print v ++ separated_members members))
        (json_string-IsPrinted k)
        (
          omega arith,
          All-append IsPrinted (print v) (separated_members members) (print-IsPrinted v h.0)
              (separated_members-IsPrinted members h.1),
        ),
  )
