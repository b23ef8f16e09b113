-- ===== src/Rpc/Values.antt =====
-- Values as clients of src/agent_rpc.cpp write them into requests, and how far the scan of a value
-- reads. The values are JSON's; they model no code of their own.
use vant.Prelude.{
  ℕ, ◌+◌, ◌-◌, ◌≡◌, ◌∙◌, refl, ap, sym, Bool, true, false, ◌||◌, [], ◌∷◌, ◌++◌, append_assoc, arith,
  ◌==◌, Bytes, All, ltb,
}
use vant.Json.{escape_byte, hex_digit, json_escape, json_string}
use vant.Rpc.{ScanMode, outside, quoted, value_text}

mutual
  -- A word is a number or one of `true`, `false` and `null`.
  pub data Value : Type 0 where
    word text : Bytes → Value
    array : Items → Value
    object : Members → Value

  -- The first item, and those behind it.
  pub data Items : Type 0 where
    no_items : Items
    item : Value → Items → Items

  pub data Members : Type 0 where
    no_members : Members
    member : Bytes → Value → Members → Members

unfoldable mutual
  pub print : Value → Bytes
  print (word w) = w
  print (text s) = json_string s
  print (array items) = b'[' ∷ (print_items items ++ b']' ∷ [])
  print (object members) = b'{' ∷ (print_members members ++ b'}' ∷ [])

  -- A comma follows each item but the last.
  pub print_items : Items → Bytes
  print_items no_items = []
  print_items (item v items) = print v ++ separated_items items

  pub separated_items : Items → Bytes
  separated_items no_items = []
  separated_items (item v items) = b',' ∷ (print v ++ separated_items items)

  pub print_members : Members → Bytes
  print_members no_members = []
  print_members (member k v members) =
      json_string k ++ b':' ∷ (print v ++ separated_members members)

  pub separated_members : Members → Bytes
  separated_members no_members = []
  separated_members (member k v members) =
      b',' ∷ (json_string k ++ b':' ∷ (print v ++ separated_members members))

abbrev pub ends_word : ℕ → Bool
ends_word c = ltb c 33 || c == b'"' || c == b',' || c == b'{' || c == b'}' || c == b'[' || c == b']'

-- The words of a value have no quote, comma, bracket, blank or control byte.
unfoldable mutual
  pub IsSound : Value → Type 0
  IsSound (word w) = All (λ (c : ℕ). ends_word c ≡ false) w
  IsSound (text s) = Unit
  IsSound (array items) = AreSound items
  IsSound (object members) = MembersSound members

  pub AreSound : Items → Type 0
  AreSound no_items = Unit
  AreSound (item v items) = IsSound v × AreSound items

  pub MembersSound : Members → Type 0
  MembersSound no_members = Unit
  MembersSound (member k v members) = IsSound v × MembersSound members

-- In front of any text the scan passes `p` and goes on in the mode and depth at the end of `p`.
pub record Passes (mode : ScanMode) (depth : ℕ) (p : Bytes) (mode_after : ScanMode)
    (depth_after : ℕ) : Type 0 where
  pub scan :
      (rest : Bytes)
      → value_text mode depth (p ++ rest) ≡ p ++ value_text mode_after depth_after rest

infix 5 ◌then◌
◌then◌ :
    {m n o : ScanMode} {d e f : ℕ} {p q : Bytes}
    → Passes m d p n e
    → Passes n e q o f
    → Passes m d (p ++ q) o f
◌then◌ {m} {n} {o} {d} {e} {f} {p} {q} h k = record {
  scan = λ rest.
      ap (value_text m d) (append_assoc p q rest)
      ∙ h.scan (q ++ rest)
      ∙ ap (λ (u : Bytes). p ++ u) (k.scan rest)
      ∙ sym (append_assoc p q (value_text o f rest));
}

scan-word :
    (depth : ℕ) (w : Bytes)
    → All (λ (c : ℕ). ends_word c ≡ false) w
    → Passes outside depth w outside depth
unfolding value_text
scan-word depth w h = record { scan = pass w h }
  where
    pass :
        (w : Bytes)
        → All (λ (c : ℕ). ends_word c ≡ false) w
        → (rest : Bytes) → value_text outside depth (w ++ rest) ≡ w ++ value_text outside depth rest
    pass [] h rest = refl
    pass (c ∷ w) h rest = ground (arith, h.0, pass w h.1 rest)

scan-escape_byte : (depth c : ℕ) → Passes quoted depth (escape_byte c) quoted depth
unfolding value_text escape_byte hex_digit
scan-escape_byte depth c = record { scan = λ rest. ground arith }

scan-json_escape : (depth : ℕ) (s : Bytes) → Passes quoted depth (json_escape s) quoted depth
unfolding json_escape
scan-json_escape depth [] = record { scan = λ rest. refl }
scan-json_escape depth (c ∷ s) = scan-escape_byte depth c then scan-json_escape depth s

scan-quote : (depth : ℕ) → Passes outside depth (b'"' ∷ []) quoted depth
unfolding value_text
scan-quote depth = record { scan = λ rest. ground arith }

scan-end_quote : (depth : ℕ) → Passes quoted depth (b'"' ∷ []) outside depth
unfolding value_text
scan-end_quote depth = record { scan = λ rest. ground arith }

scan-json_string : (depth : ℕ) (s : Bytes) → Passes outside depth (json_string s) outside depth
unfolding json_string
scan-json_string depth s =
    scan-quote depth then (scan-json_escape depth s then scan-end_quote depth)

-- A bracket, a comma and a colon inside a value.
scan-opening :
    (depth c : ℕ)
    → (c == b'{' || c == b'[') ≡ true
    → Passes outside depth (c ∷ []) outside (depth + 1)
unfolding value_text
scan-opening depth c h = record { scan = λ rest. ground (arith, h) }

scan-closing :
    (depth c : ℕ)
    → (c == b'}' || c == b']') ≡ true
    → Passes outside (depth + 1) (c ∷ []) outside depth
unfolding value_text
scan-closing depth c h = record {
  scan = λ rest.
      let back : depth + 1 - 1 ≡ depth = omega arith in
      let shallower : value_text outside (depth + 1 - 1) rest ≡ value_text outside depth rest =
        ap (λ n. value_text outside n rest) back in
      ground (arith, h, shallower);
}

scan-comma : (depth : ℕ) → Passes outside (depth + 1) (b',' ∷ []) outside (depth + 1)
unfolding value_text
scan-comma depth = record { scan = λ rest. ground arith }

scan-colon : (depth : ℕ) → Passes outside depth (b':' ∷ []) outside depth
unfolding value_text
scan-colon depth = record { scan = λ rest. ground arith }

mutual
  unfolding print print_items separated_items print_members separated_members IsSound AreSound
      MembersSound

  -- The scan passes a whole value.
  pub scan-print :
      (depth : ℕ) (v : Value) → IsSound v → Passes outside depth (print v) outside depth
  scan-print depth (word w) h = scan-word depth w h
  scan-print depth (text s) h = scan-json_string depth s
  scan-print depth (array items) h =
      scan-opening depth b'[' refl then (scan-items depth items h then scan-closing depth b']' refl)
  scan-print depth (object members) h =
      scan-opening depth b'{' refl
      then (scan-members depth members h then scan-closing depth b'}' refl)

  scan-items :
      (depth : ℕ) (items : Items)
      → AreSound items
      → Passes outside (depth + 1) (print_items items) outside (depth + 1)
  scan-items depth no_items h = record { scan = λ rest. refl }
  scan-items depth (item v items) h =
      scan-print (depth + 1) v h.0 then scan-separated_items depth items h.1

  scan-separated_items :
      (depth : ℕ) (items : Items)
      → AreSound items
      → Passes outside (depth + 1) (separated_items items) outside (depth + 1)
  scan-separated_items depth no_items h = record { scan = λ rest. refl }
  scan-separated_items depth (item v items) h =
      scan-comma depth then (scan-print (depth + 1) v h.0 then scan-separated_items depth items h.1)

  scan-members :
      (depth : ℕ) (members : Members)
      → MembersSound members
      → Passes outside (depth + 1) (print_members members) outside (depth + 1)
  scan-members depth no_members h = record { scan = λ rest. refl }
  scan-members depth (member k v members) h = scan-json_string (depth + 1) k then (
      scan-colon (depth + 1)
      then (scan-print (depth + 1) v h.0 then scan-separated_members depth members h.1))

  scan-separated_members :
      (depth : ℕ) (members : Members)
      → MembersSound members
      → Passes outside (depth + 1) (separated_members members) outside (depth + 1)
  scan-separated_members depth no_members h = record { scan = λ rest. refl }
  scan-separated_members depth (member k v members) h = scan-comma depth then (
      scan-json_string (depth + 1) k then (
        scan-colon (depth + 1)
        then (scan-print (depth + 1) v h.0 then scan-separated_members depth members h.1)))
