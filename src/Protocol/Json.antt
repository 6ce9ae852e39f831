-- ===== src/Protocol/Json.antt =====
-- The text of JSON values and how deeply they nest, described apart from any parser: what the guard
-- of stream_protocol.cpp is measured against.
use mod_openai_realtime.Base.{
  ℕ, ◌+◌, max, ◌≡◌, ◌≢◌, Bool, true, not, ◌&&◌, ◌||◌, [], ◌∷◌, ◌++◌, ◌==◌, Bytes,
}

-- A byte that may stand outside a string and opens or closes nothing: of a number, a name, a blank.
abbrev pub neutral : ℕ → Bool
neutral c = not (c == b'"' || c == b'{' || c == b'[' || c == b'}' || c == b']')

abbrev pub all_neutral : Bytes → Bool
all_neutral [] = true
all_neutral (c ∷ cs) = neutral c && all_neutral cs

-- The inside of a string literal: plain bytes, and a backslash with the byte after it.
pub data Chars : Type 0 where
  end : Chars
  plain : (c : ℕ) → c ≢ b'"' → c ≢ b'\\' → Chars → Chars
  escaped : ℕ → Chars → Chars

-- JSON values with the blanks as written; `pad` puts blanks on both sides of a value.
mutual
  pub data Value : Type 0 where
    atom : (w : Bytes) → all_neutral w ≡ true → Value
    str : Chars → Value
    pad : (w : Bytes) → all_neutral w ≡ true → Value → (u : Bytes) → all_neutral u ≡ true → Value
    arr : Items → Value
    obj : Fields → Value

  pub data Items : Type 0 where
    no_items : (w : Bytes) → all_neutral w ≡ true → Items
    cons : Value → Items → Items

  pub data Fields : Type 0 where
    no_fields : (w : Bytes) → all_neutral w ≡ true → Fields
    field : (w : Bytes) → all_neutral w ≡ true → Chars → Value → Fields → Fields

-- The text of each, in front of what follows it.
unfoldable pub render_chars : Chars → Bytes → Bytes
render_chars end rest = rest
render_chars (plain c _ _ cs) rest = c ∷ render_chars cs rest
render_chars (escaped c cs) rest = b'\\' ∷ c ∷ render_chars cs rest

unfoldable pub comma_items : Items → Bytes → Bytes
comma_items (no_items _ _) rest = rest
comma_items (cons _ _) rest = b',' ∷ rest

unfoldable pub comma_fields : Fields → Bytes → Bytes
comma_fields (no_fields _ _) rest = rest
comma_fields (field _ _ _ _ _) rest = b',' ∷ rest

unfoldable mutual
  unfolding render_chars comma_items comma_fields

  pub render : Value → Bytes → Bytes
  render (atom w _) rest = w ++ rest
  render (str cs) rest = b'"' ∷ render_chars cs (b'"' ∷ rest)
  render (pad w _ v u _) rest = w ++ render v (u ++ rest)
  render (arr xs) rest = b'[' ∷ render_items xs (b']' ∷ rest)
  render (obj fs) rest = b'{' ∷ render_fields fs (b'}' ∷ rest)

  pub render_items : Items → Bytes → Bytes
  render_items (no_items w _) rest = w ++ rest
  render_items (cons v xs) rest = render v (comma_items xs (render_items xs rest))

  pub render_fields : Fields → Bytes → Bytes
  render_fields (no_fields w _) rest = w ++ rest
  render_fields (field w _ key v fs) rest =
      w
      ++ b'"' ∷ render_chars key (b'"' ∷ b':' ∷ render v (comma_fields fs (render_fields fs rest)))

unfoldable mutual
  pub nesting : Value → ℕ
  nesting (atom _ _) = 0
  nesting (str _) = 0
  nesting (pad _ _ v _ _) = nesting v
  nesting (arr xs) = 1 + nesting_items xs
  nesting (obj fs) = 1 + nesting_fields fs

  pub nesting_items : Items → ℕ
  nesting_items (no_items _ _) = 0
  nesting_items (cons v xs) = max (nesting v) (nesting_items xs)

  pub nesting_fields : Fields → ℕ
  nesting_fields (no_fields _ _) = 0
  nesting_fields (field _ _ _ v fs) = max (nesting v) (nesting_fields fs)
