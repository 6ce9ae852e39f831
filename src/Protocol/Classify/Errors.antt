-- ===== src/Protocol/Classify/Errors.antt =====
-- Which types `classify_json_message` takes for errors.
use mod_openai_realtime.Base.{
  ◌≡◌, refl, ap, ◌∙◌, inl, inr, ◌↔◌, true, [], ◌∷◌, ◌++◌, some, arith, Bool-cases, Bytes, codes,
  starts_with, contains,
}
use mod_openai_realtime.Protocol.Classify.{error, classify_json_message}

-- `needle` occurs in `text`.
pub record Occurs (needle text : Bytes) : Type 0 where
  pub before : Bytes
  pub after : Bytes
  pub splits : text ≡ before ++ (needle ++ after)

starts_with-splits :
    (needle text : Bytes)
    → starts_with needle text ≡ true
    → (after : Bytes) × (text ≡ needle ++ after)
starts_with-splits [] text h = (text, refl)
starts_with-splits (p ∷ ps) [] h = absurd (cc)
starts_with-splits (p ∷ ps) (c ∷ cs) h =
    let (after, e) = starts_with-splits ps cs (ground arith) in (after, ground (arith, e))

starts_with_append : (needle after : Bytes) → starts_with needle (needle ++ after) ≡ true
starts_with_append [] after = refl
starts_with_append (p ∷ ps) after = ground (arith, starts_with_append ps after)

contains-Occurs : (needle text : Bytes) → contains needle text ≡ true → Occurs needle text
contains-Occurs needle [] h =
    let (after, e) = starts_with-splits needle [] h in
    record { before = []; after = after; splits = e }
contains-Occurs needle (c ∷ cs) h = elim (Bool-cases (starts_with needle (c ∷ cs))) [
  | inl e ↦
      let (after, s) = starts_with-splits needle (c ∷ cs) e in
      record { before = []; after = after; splits = s }
  | inr e ↦
      let o = contains-Occurs needle cs (ground arith) in
      record { before = c ∷ o.before; after = o.after; splits = ap (◌∷◌ c) o.splits }
]

contains_start :
    (needle text : Bytes) → starts_with needle text ≡ true → contains needle text ≡ true
contains_start needle [] h = h
contains_start needle (c ∷ cs) h = ground arith

contains_append :
    (needle before after : Bytes) → contains needle (before ++ (needle ++ after)) ≡ true
contains_append needle [] after =
    contains_start needle (needle ++ after) (starts_with_append needle after)
contains_append needle (c ∷ cs) after = ground (arith, contains_append needle cs after)

-- For any type that is not null: `classify_json_message` answers `error` exactly when the text "error"
-- occurs in it, whatever else the type is.
pub classify_json_message-Occurs :
    (type : Bytes) → (classify_json_message (some type) ≡ error) ↔ Occurs (codes "error") type
unfolding classify_json_message
classify_json_message-Occurs type = (
  λ h. contains-Occurs (codes "error") type (ground arith),
  λ o. ground (
    arith,
    ap (contains (codes "error")) o.splits ∙ contains_append (codes "error") o.before o.after,
  ),
)
