-- ===== src/Protocol/Depth/Nesting.antt =====
-- What the guard measures on the text of a JSON value: how deeply its arrays and objects nest.
use mod_openai_realtime.Base.{
  ℕ, ◌+◌, ◌≤◌, max, ◌≡◌, refl, ◌∙◌, ap, ◌⊎◌, inl, inr, Bool, true, false, [], ◌∷◌, ◌++◌, some,
  arith, ltb, if◌then◌else◌, pos, Bytes,
}
use mod_openai_realtime.Protocol.Depth.{scan, json_depth_exceeded}
use mod_openai_realtime.Protocol.Json.{
  all_neutral, Chars, end, plain, escaped, Value, Items, Fields, atom, str, pad, arr, obj, no_items,
  cons, no_fields, field, render_chars, comma_items, comma_fields, render, render_items,
  render_fields, nesting, nesting_items, nesting_fields,
}

-- What the scan of a piece that nests `n` deep comes to, at depth `d` before `rest`.
abbrev outcome : ℕ → ℕ → ℕ → Bytes → Bool
outcome m d n rest = if ltb m (d + n) then true else scan m 0 false d rest

scan_neutral :
    (m d : ℕ) (w rest : Bytes)
    → all_neutral w ≡ true
    → scan m 0 false d (w ++ rest) ≡ scan m 0 false d rest
unfolding scan
scan_neutral m d [] rest h = refl
scan_neutral m d (c ∷ cs) rest h = ground (arith, scan_neutral m d cs rest)

scan_chars :
    (m d : ℕ) (cs : Chars) (rest : Bytes)
    → scan m 0 true d (render_chars cs (b'"' ∷ rest)) ≡ scan m 0 false d rest
unfolding scan render_chars
scan_chars m d end rest = refl
scan_chars m d (plain c p q cs) rest = ground (arith, scan_chars m d cs rest)
scan_chars m d (escaped c cs) rest = scan_chars m d cs rest

scan_open :
    (m d : ℕ) (c : ℕ) (rest : Bytes)
    → (c ≡ b'[') ⊎ (c ≡ b'{')
    → scan m 0 false d (c ∷ rest) ≡ (if ltb m (d + 1) then true else scan m 0 false (d + 1) rest)
unfolding scan
scan_open m d c rest h = ground arith

scan_close :
    (m d : ℕ) (c : ℕ) (rest : Bytes)
    → (c ≡ b']') ⊎ (c ≡ b'}')
    → scan m 0 false (d + 1) (c ∷ rest) ≡ scan m 0 false d rest
unfolding scan
scan_close m d c rest h = ground arith

-- One piece after another.
outcome_both :
    (m d n k : ℕ) (text middle rest : Bytes)
    → scan m 0 false d text ≡ outcome m d n middle
    → scan m 0 false d middle ≡ outcome m d k rest
    → scan m 0 false d text ≡ outcome m d (max n k) rest
outcome_both m d n k text middle rest p q = ground arith

-- An array or object round a piece.
outcome_nested :
    (m d n b c : ℕ) (text rest : Bytes)
    → (b ≡ b'[') ⊎ (b ≡ b'{')
    → (c ≡ b']') ⊎ (c ≡ b'}')
    → (d + 1 ≤ m → scan m 0 false (d + 1) text ≡ outcome m (d + 1) n (c ∷ rest))
    → scan m 0 false d (b ∷ text) ≡ outcome m d (1 + n) rest
outcome_nested m d n b c text rest open_b close_c inner =
    ground (arith, scan_open m d b text open_b, scan_close m d c rest close_c)

scan_comma : (m d : ℕ) (rest : Bytes) → scan m 0 false d (b',' ∷ rest) ≡ scan m 0 false d rest
unfolding scan
scan_comma m d rest = refl

scan_colon : (m d : ℕ) (rest : Bytes) → scan m 0 false d (b':' ∷ rest) ≡ scan m 0 false d rest
unfolding scan
scan_colon m d rest = refl

scan_quote : (m d : ℕ) (rest : Bytes) → scan m 0 false d (b'"' ∷ rest) ≡ scan m 0 true d rest
unfolding scan
scan_quote m d rest = refl

scan-comma_items :
    (m d : ℕ) (xs : Items) (rest : Bytes)
    → scan m 0 false d (comma_items xs rest) ≡ scan m 0 false d rest
unfolding comma_items
scan-comma_items m d (no_items w h) rest = refl
scan-comma_items m d (cons v xs) rest = scan_comma m d rest

scan-comma_fields :
    (m d : ℕ) (fs : Fields) (rest : Bytes)
    → scan m 0 false d (comma_fields fs rest) ≡ scan m 0 false d rest
unfolding comma_fields
scan-comma_fields m d (no_fields w h) rest = refl
scan-comma_fields m d (field w h k v fs) rest = scan_comma m d rest

-- A string literal leaves the depth as it was.
scan_str :
    (m d : ℕ) (cs : Chars) (rest : Bytes)
    → scan m 0 false d (b'"' ∷ render_chars cs (b'"' ∷ rest)) ≡ scan m 0 false d rest
scan_str m d cs rest = scan_quote m d _ ∙ scan_chars m d cs rest

-- A piece that nests nothing.
outcome_flat :
    (m d : ℕ) (text rest : Bytes)
    → d ≤ m
    → scan m 0 false d text ≡ scan m 0 false d rest
    → scan m 0 false d text ≡ outcome m d 0 rest
outcome_flat m d text rest h e = ground arith

mutual
  unfolding render render_items render_fields nesting nesting_items nesting_fields

  scan_value :
      (v : Value) (m d : ℕ) (rest : Bytes)
      → d ≤ m
      → scan m 0 false d (render v rest) ≡ outcome m d (nesting v) rest
  scan_value (atom w h) m d rest le = outcome_flat m d _ rest le (scan_neutral m d w rest h)
  scan_value (str cs) m d rest le = outcome_flat m d _ rest le (scan_str m d cs rest)
  scan_value (pad w h v u k) m d rest le =
      scan_neutral m d w _ h
      ∙ scan_value v m d (u ++ rest) le
      ∙ ap (λ b. if ltb m (d + nesting v) then true else b) (scan_neutral m d u rest k)
  scan_value (arr xs) m d rest le =
      outcome_nested m d (nesting_items xs) b'[' b']' _ rest (inl refl) (inl refl)
        (λ le'. scan_items xs m (d + 1) (b']' ∷ rest) le')
  scan_value (obj fs) m d rest le =
      outcome_nested m d (nesting_fields fs) b'{' b'}' _ rest (inr refl) (inr refl)
        (λ le'. scan_fields fs m (d + 1) (b'}' ∷ rest) le')

  scan_items :
      (xs : Items) (m d : ℕ) (rest : Bytes)
      → d ≤ m
      → scan m 0 false d (render_items xs rest) ≡ outcome m d (nesting_items xs) rest
  scan_items (no_items w h) m d rest le = outcome_flat m d _ rest le (scan_neutral m d w rest h)
  scan_items (cons v xs) m d rest le =
      outcome_both m d (nesting v) (nesting_items xs) _ _ rest
        (scan_value v m d (comma_items xs (render_items xs rest)) le)
        (scan-comma_items m d xs _ ∙ scan_items xs m d rest le)

  scan_fields :
      (fs : Fields) (m d : ℕ) (rest : Bytes)
      → d ≤ m
      → scan m 0 false d (render_fields fs rest) ≡ outcome m d (nesting_fields fs) rest
  scan_fields (no_fields w h) m d rest le = outcome_flat m d _ rest le (scan_neutral m d w rest h)
  scan_fields (field w h key v fs) m d rest le =
      scan_neutral m d w _ h
      ∙ scan_str m d key _
      ∙ scan_colon m d _
      ∙ outcome_both m d (nesting v) (nesting_fields fs) _ _ rest
          (scan_value v m d (comma_fields fs (render_fields fs rest)) le)
          (scan-comma_fields m d fs _ ∙ scan_fields fs m d rest le)

-- For the text of any JSON value and any bound that is not negative, `json_depth_exceeded` returns
-- true exactly when the value's arrays and objects nest deeper than the bound: brackets inside
-- string literals, escaped quotes included, do not count.
pub json_depth_exceeded-nesting :
    (v : Value) (max_depth : ℕ)
    → json_depth_exceeded (some (render v [])) (pos max_depth) ≡ ltb max_depth (nesting v)
unfolding json_depth_exceeded
json_depth_exceeded-nesting v max_depth = scan_value v max_depth 0 [] (omega arith) ∙ ground arith
