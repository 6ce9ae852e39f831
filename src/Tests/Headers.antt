-- ===== src/Tests/Headers.antt =====
-- The headers of a connection, on a small JSON of objects that print if they have one member.
use mod_openai_realtime.Base.{
  ◌≡◌, refl, sym, ap, ◌∙◌, str_eq, if◌then◌else◌, List, [], ◌∷◌, ◌++◌, Option, none, some, false,
  Bytes, codes, length, take, drop,
}
use mathlib.Core.Option.{some-injective}
use mod_openai_realtime.Services.{Platform, Json}
use mod_openai_realtime.Setup.{Variables, parse_headers}
use mod_openai_realtime.Setup.Init.{extra_headers_of}
use mod_openai_realtime.Streamer.Sending.{add_string}
use mod_openai_realtime.Setup.Authorization.{
  Member, IsCjson, without_first, others, authorization, extra_headers_of-others,
}
use mod_openai_realtime.Tests.Sample.{sample_platform}

abbrev parse_member : Bytes → Option (List Member)
parse_member [] = none
parse_member (n ∷ text) = some ((some (take n text), some (drop n text)) ∷ [])

abbrev print_member : List Member → Option Bytes
print_member ((some name, some value) ∷ []) = some (length name ∷ name ++ value)
print_member _ = none

abbrev text_of : List Member → Option Bytes
text_of [] = none
text_of ((name, value) ∷ ms) = value

abbrev member_json : Json
member_json = record {
  Value = List Member;
  parse = parse_member;
  members = λ v. some v;
  get_cstr = λ v key. none;
  delete_item = λ v key. without_first key v;
  create_string = λ t. some ((none, some t) ∷ []);
  add_item = λ v key w. v ++ (some key, text_of w) ∷ [];
  add_number = λ v key n. v;
  create_object = some [];
  print_unformatted = print_member;
}

take-length : (name value : Bytes) → take (length name) (name ++ value) ≡ name
take-length [] value = refl
take-length (c ∷ cs) value = ap (λ t. c ∷ t) (take-length cs value)

drop-length : (name value : Bytes) → drop (length name) (name ++ value) ≡ value
drop-length [] value = refl
drop-length (c ∷ cs) value = drop-length cs value

print_member-parse_member :
    (v : List Member) (t : Bytes) (ms : List Member)
    → some v ≡ some ms
    → print_member v ≡ some t
    → (v' : List Member) × (parse_member t ≡ some v') × (some v' ≡ some ms)
print_member-parse_member ((some name, some value) ∷ []) t ms e h =
    let parsed : parse_member (length name ∷ name ++ value) ≡ some ((some name, some value) ∷ []) =
      rw (take-length name value, drop-length name value) refl in
    ((some name, some value) ∷ [], ap parse_member (sym (some-injective _ _ h)) ∙ parsed, e)
print_member-parse_member [] t ms e h = cc h
print_member-parse_member ((none, value) ∷ v) t ms e h = cc h
print_member-parse_member ((some name, none) ∷ v) t ms e h = cc h
print_member-parse_member ((some name, some value) ∷ m ∷ v) t ms e h = cc h

member_json-IsCjson : IsCjson member_json
member_json-IsCjson = record {
  empty = λ v e. sym e;
  deleted = λ v key ms e. ap (λ o. some (without_first key o)) (some-injective v ms e);
  strings = λ t. ((none, some t) ∷ [], refl);
  added = λ v w key t ms e c.
      ap (λ o. some (v ++ (some key, text_of o) ∷ [])) (sym (some-injective _ w c))
      ∙ ap (λ o. some (o ++ (some key, some t) ∷ [])) (some-injective v ms e);
  printed = print_member-parse_member;
}

abbrev header_platform : Platform
header_platform = record sample_platform { json = member_json }

-- An old authorization is configured.
abbrev header_variables : Variables
header_variables = record {
  get = λ name.
      if str_eq name (codes "STREAM_OPENAI_API_KEY")
      then some (codes "key")
      else if str_eq name (codes "STREAM_EXTRA_HEADERS")
      then some (13 ∷ codes "authorizationold")
      else none;
  is_true = λ name. false;
}

abbrev header_text : Bytes
header_text = 13 ∷ codes "AuthorizationBearer key"

header_text-made : extra_headers_of header_platform header_variables ≡ some (some header_text)
unfolding extra_headers_of without_first add_string
header_text-made = refl

extra_headers_of-others_example :
    (before : List (Bytes × Bytes)) × (parse_headers header_platform (some header_text)
      ≡ before ++ (authorization, codes "Bearer " ++ codes "key") ∷ [])
    × (others before
        ≡ others
            (parse_headers header_platform (header_variables.get (codes "STREAM_EXTRA_HEADERS"))))
extra_headers_of-others_example =
    extra_headers_of-others header_platform member_json-IsCjson header_variables (codes "key")
      (some header_text) refl header_text-made
