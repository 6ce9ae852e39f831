-- ===== src/Setup/Authorization.antt =====
-- The key of the server in the headers of the connection.
use mod_openai_realtime.Base.{
  ◌≡◌, refl, sym, subst, ap, ◌∙◌, Bool, false, List, [], ◌∷◌, ◌++◌, append_assoc, Option, none,
  some, arith, if◌then◌else◌, >>=-eq-some, Bytes, codes, Option-cases, inl, inr,
}
use mod_openai_realtime.Services.{Platform, Json}
use mod_openai_realtime.Streamer.Sending.{add_string}
use mod_openai_realtime.Setup.{Variables, header_of, headers_of, parse_headers}
use mod_openai_realtime.Setup.Init.{headers_object, authorize, extra_headers_of}
use mod_openai_realtime.Command.{str_case_eq}

abbrev pub Member : Type 0
Member = Option Bytes × Option Bytes

abbrev pub has_name : Bytes → Option Bytes → Bool
has_name key none = false
has_name key (some name) = str_case_eq name key

-- The members less the first of a name, whatever its case.
unfoldable pub without_first : Bytes → List Member → List Member
without_first key [] = []
without_first key ((name, value) ∷ ms) =
    let rest = without_first key ms in if has_name key name then ms else (name, value) ∷ rest

-- What the code relies on: cJSON's objects, printed and parsed, with memory for every string.
pub record IsCjson (j : Json) : Type 0 where
  pub empty : (v : j.Value) → j.create_object ≡ some v → j.members v ≡ some []
  pub deleted :
      (v : j.Value) (key : Bytes) (ms : List Member)
      → j.members v ≡ some ms
      → j.members (j.delete_item v key) ≡ some (without_first key ms)
  pub strings : (t : Bytes) → (w : j.Value) × (j.create_string t ≡ some w)
  pub added :
      (v w : j.Value) (key t : Bytes) (ms : List Member)
      → j.members v ≡ some ms
      → j.create_string t ≡ some w
      → j.members (j.add_item v key w) ≡ some (ms ++ (some key, some t) ∷ [])
  pub printed :
      (v : j.Value) (t : Bytes) (ms : List Member)
      → j.members v ≡ some ms
      → j.print_unformatted v ≡ some t
      → (v' : j.Value) × (j.parse t ≡ some v') × (j.members v' ≡ some ms)

abbrev pub authorization : Bytes
authorization = codes "Authorization"

-- The headers but those that authorize.
pub others : List (Bytes × Bytes) → List (Bytes × Bytes)
others [] = []
others ((name, value) ∷ hs) =
    let rest = others hs in if str_case_eq name authorization then rest else (name, value) ∷ rest

headers_of-append : (ms ns : List Member) → headers_of (ms ++ ns) ≡ headers_of ms ++ headers_of ns
unfolding headers_of
headers_of-append [] ns = refl
headers_of-append (m ∷ ms) ns =
    ap (λ hs. header_of m ++ hs) (headers_of-append ms ns)
    ∙ sym (append_assoc (header_of m) (headers_of ms) (headers_of ns))

others-without_first :
    (ms : List Member)
    → others (headers_of (without_first authorization ms)) ≡ others (headers_of ms)
unfolding others headers_of without_first
others-without_first [] = refl
others-without_first ((none, value) ∷ ms) = others-without_first ms
others-without_first ((some [], none) ∷ ms) = others-without_first ms
others-without_first ((some [], some value) ∷ ms) = others-without_first ms
others-without_first ((some (c ∷ cs), none) ∷ ms) = ground (arith, others-without_first ms)
others-without_first ((some (c ∷ cs), some value) ∷ ms) = ground (arith, others-without_first ms)

module _ (p : Platform) (laws : IsCjson p.json) where
  -- The members that are configured, none where they are no object.
  abbrev members_or_none : Option (List Member) → List Member
  members_or_none none = []
  members_or_none (some ms) = ms

  configured_members : Option Bytes → List Member
  configured_members none = []
  configured_members (some text) = elim (p.json.parse text) [
    | none ↦ []
    | some value ↦ members_or_none (p.json.members value)
  ]

  parse_headers-members :
      (configured : Option Bytes)
      → parse_headers p configured ≡ headers_of (configured_members configured)
  unfolding parse_headers configured_members headers_of
  parse_headers-members none = refl
  parse_headers-members (some text) = grind arith

  parse_headers_of :
      (text : Bytes) (v : p.json.Value) (ms : List Member)
      → p.json.parse text ≡ some v
      → p.json.members v ≡ some ms
      → parse_headers p (some text) ≡ headers_of ms
  unfolding parse_headers
  parse_headers_of text v ms parsed same = simp (parse_headers, parsed, same) refl

  headers_object-members :
      (configured : Option Bytes) (v : p.json.Value)
      → headers_object p configured ≡ some v
      → p.json.members v ≡ some (configured_members configured)
  unfolding headers_object configured_members
  headers_object-members none v h = laws.empty v h
  headers_object-members (some text) v h = grind (arith, laws.empty v)

  add_string-members :
      (v : p.json.Value) (key t : Bytes) (ms : List Member)
      → p.json.members v ≡ some ms
      → p.json.members (add_string p v key t) ≡ some (ms ++ (some key, some t) ∷ [])
  unfolding add_string
  add_string-members v key t ms h =
      let (w, e) = laws.strings t in simp (add_string, e) (laws.added v w key t ms h e)

  authorize-others :
      (key : Bytes) (configured : Option Bytes) (text : Bytes)
      → authorize p key configured ≡ some text
      → (before : List (Bytes × Bytes)) × (parse_headers p (some text)
          ≡ before ++ (authorization, codes "Bearer " ++ key) ∷ [])
        × (others before ≡ others (parse_headers p configured))
  unfolding authorize headers_of
  authorize-others key configured text h =
      let (v, e, h1) = >>=-eq-some (headers_object p configured) _ h in
      let ms = configured_members configured in
      let deleted = laws.deleted v authorization ms (headers_object-members configured v e) in
      let added = add_string-members _ authorization (codes "Bearer " ++ key) _ deleted in
      let (v', parsed, same) = laws.printed _ text _ added h1 in
      let kept = without_first authorization ms in
      (
        headers_of kept,
        parse_headers_of text v' _ parsed same
            ∙ headers_of-append kept ((some authorization, some (codes "Bearer " ++ key)) ∷ []),
        others-without_first ms ∙ ap others (sym (parse_headers-members configured)),
      )

  with_key :
      (v : Variables) (key : Bytes) (headers : Option Bytes)
      → v.get (codes "STREAM_OPENAI_API_KEY") ≡ some key
      → extra_headers_of p v ≡ some headers
      → (text : Bytes) × (authorize p key (v.get (codes "STREAM_EXTRA_HEADERS")) ≡ some text)
        × (some text ≡ headers)
  unfolding extra_headers_of
  with_key v key headers e h =
      elim (Option-cases (authorize p key (v.get (codes "STREAM_EXTRA_HEADERS")))) [
        | inl failed ↦ grind (arith, e, failed, h)
        | inr (text, made) ↦ (text, made, grind (arith, e, made, h))
      ]

  -- For cJSON's objects, a key in STREAM_OPENAI_API_KEY, and whatever STREAM_EXTRA_HEADERS holds, when
  -- the headers of the connection are made: the last of them is the key's authorization, and those of
  -- all other names are the ones that STREAM_EXTRA_HEADERS would give alone, in order.
  pub extra_headers_of-others :
      (v : Variables) (key : Bytes) (headers : Option Bytes)
      → v.get (codes "STREAM_OPENAI_API_KEY") ≡ some key
      → extra_headers_of p v ≡ some headers
      → (before : List (Bytes × Bytes)) × (parse_headers p headers
          ≡ before ++ (authorization, codes "Bearer " ++ key) ∷ [])
        × (others before ≡ others (parse_headers p (v.get (codes "STREAM_EXTRA_HEADERS"))))
  extra_headers_of-others v key headers e h =
      let configured = v.get (codes "STREAM_EXTRA_HEADERS") in
      let (text, made, same) = with_key v key headers e h in
      subst
        (λ o.
          (before : List (Bytes × Bytes)) × (parse_headers p o
            ≡ before ++ (authorization, codes "Bearer " ++ key) ∷ [])
          × (others before ≡ others (parse_headers p configured)))
        same (authorize-others key configured text made)
