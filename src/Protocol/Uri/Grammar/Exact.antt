-- ===== src/Protocol/Uri/Grammar/Exact.antt =====
-- `validate_ws_uri` accepts the URLs of the grammar that fit the destination, and no others.
use mod_openai_realtime.Base.{
  ℕ, ◌<◌, ◌≡◌, ◌≢◌, refl, ap, sym, ◌∙◌, inl, inr, ◌↔◌, true, false, [], ◌∷◌, ◌++◌, some, arith, ltb,
  ltb→lt, ◌==◌, Bool-cases, Bytes, codes, length, drop, starts_with, append_assoc, ◌>>=◌, guard,
  >>=-eq-some, guard-eq-some,
}
use mod_openai_realtime.Protocol.Uri.{
  bracket_byte, host_byte, strip_scheme, strip_host, strip_port, ends_authority, strip_authority,
  validate_ws_uri,
}
use mod_openai_realtime.Protocol.Uri.Grammar.{
  IsScheme, IsHost, name, address, IsPort, absent, number, IsWsUri,
}
use mod_openai_realtime.Protocol.Uri.Grammar.Loops.{
  Some, Reads, scan_bracket-Reads, scan_bracket_all, stops_host, scan_host-Reads, scan_host_all,
  ReadsPort, scan_port-ReadsPort, scan_port_all,
}

starts_with-split : (p text : Bytes) → starts_with p text ≡ true → text ≡ p ++ drop (length p) text
starts_with-split [] text h = refl
starts_with-split (c ∷ cs) [] h = cc
starts_with-split (c ∷ cs) (d ∷ ds) h = ground (arith, starts_with-split cs ds)

strip_scheme-IsScheme :
    (url rest : Bytes) → strip_scheme url ≡ some rest → (s : Bytes) × IsScheme s × (url ≡ s ++ rest)
unfolding strip_scheme
strip_scheme-IsScheme url rest h = elim (Bool-cases (starts_with (codes "ws://") url)) [
  | inl e ↦ (
    codes "ws://",
    inl refl,
    starts_with-split (codes "ws://") url e ∙ ap (◌++◌ (codes "ws://")) (ground arith),
  )
  | inr e ↦ elim (Bool-cases (starts_with (codes "wss://") url)) [
    | inl f ↦ (
      codes "wss://",
      inr refl,
      starts_with-split (codes "wss://") url f ∙ ap (◌++◌ (codes "wss://")) (ground arith),
    )
    | inr f ↦ absurd (ground arith)
  ]
]

Some-false : {h : Bytes} → Some false h → h ≢ []
Some-false (inl e) = cc
Some-false (inr n) = n

Reads-address :
    (c : ℕ) {text rest : Bytes}
    → c ≡ b'['
    → Reads bracket_byte false text (b']' ∷ rest)
    → (h : Bytes) × IsHost h × ((c ∷ text) ≡ h ++ rest)
Reads-address c {rest = rest} e r = (
  b'[' ∷ (r.word ++ b']' ∷ []),
  address r.word (Some-false r.not_empty) r.all_word,
  rw (append_assoc r.word (b']' ∷ []) rest) (ground (arith, r.splits)),
)

Reads-name :
    {text rest : Bytes}
    → Reads host_byte false text rest
    → (h : Bytes) × IsHost h × (text ≡ h ++ rest)
Reads-name r = (r.word, name r.word (Some-false r.not_empty) r.all_word, r.splits)

strip_host-IsHost :
    (text rest : Bytes) → strip_host text ≡ some rest → (h : Bytes) × IsHost h × (text ≡ h ++ rest)
unfolding strip_host
strip_host-IsHost [] rest h = cc
strip_host-IsHost (c ∷ cs) rest h = elim (Bool-cases (c == b'[')) [
  | inl e ↦ Reads-address c (ground arith) (scan_bracket-Reads false cs (ground arith))
  | inr e ↦ Reads-name (scan_host-Reads false (c ∷ cs) (ground arith))
]

ReadsPort-number :
    (c : ℕ) {text rest : Bytes}
    → c ≡ b':'
    → ReadsPort false 0 text rest
    → (p : Bytes) × IsPort p × ((c ∷ text) ≡ p ++ rest)
ReadsPort-number c e r = (
  b':' ∷ r.digits,
  number r.digits (Some-false r.not_empty) r.all_digits r.not_zero r.in_range,
  ground (arith, r.splits),
)

strip_port-IsPort :
    (text rest : Bytes) → strip_port text ≡ some rest → (p : Bytes) × IsPort p × (text ≡ p ++ rest)
unfolding strip_port
strip_port-IsPort [] rest h = ([], absent, ground arith)
strip_port-IsPort (c ∷ cs) rest h = elim (Bool-cases (c == b':')) [
  | inl e ↦
      ReadsPort-number c (ground arith)
        (scan_port-ReadsPort false 0 cs (omega arith) (ground arith))
  | inr e ↦ ([], absent, ground arith)
]

strip_authority-IsWsUri : (url tail : Bytes) → strip_authority url ≡ some tail → IsWsUri url
unfolding strip_authority
strip_authority-IsWsUri url tail h =
    let (a, ea, ha) = >>=-eq-some (strip_scheme url) _ h in
    let (b, eb, hb) = >>=-eq-some (strip_host a) _ ha in
    let (c, ec, hc) = >>=-eq-some (strip_port b) _ hb in
    let (s, is_s, es) = strip_scheme-IsScheme url a ea in
    let (k, is_k, ek) = strip_host-IsHost a b eb in
    let (p, is_p, ep) = strip_port-IsPort b c ec in
    record {
      scheme = s;
      host = k;
      port = p;
      tail = c;
      splits = es ∙ ap (◌++◌ s) (ek ∙ ap (◌++◌ k) ep);
      is_scheme = is_s;
      is_host = is_k;
      is_port = is_p;
      is_tail = (guard-eq-some (ends_authority c) c hc).0;
    }

strip_scheme_all : (s rest : Bytes) → IsScheme s → strip_scheme (s ++ rest) ≡ some rest
unfolding strip_scheme
strip_scheme_all s rest (inl e) = rw e
strip_scheme_all s rest (inr e) = rw e

strip_host_all :
    (h rest : Bytes) → IsHost h → stops_host rest ≡ true → strip_host (h ++ rest) ≡ some rest
unfolding strip_host host_byte
strip_host_all h rest (name [] ne all) stop = absurd (ne refl)
strip_host_all h rest (name (c ∷ cs) ne all) stop =
    ground (arith, scan_host_all false (c ∷ cs) rest all (inr ne) stop)
strip_host_all h rest (address w ne all) stop =
    rw (append_assoc w (b']' ∷ []) rest) (scan_bracket_all false w rest all (inr ne))

strip_port_all :
    (p rest : Bytes) → IsPort p → ends_authority rest ≡ true → strip_port (p ++ rest) ≡ some rest
unfolding strip_port ends_authority
strip_port_all p [] absent stop = refl
strip_port_all p (c ∷ rest) absent stop = ground arith
strip_port_all p rest (number ds ne all pos le) stop =
    scan_port_all false 0 ds rest all (inr ne) pos le stop

stops_host-port :
    (p rest : Bytes) → IsPort p → ends_authority rest ≡ true → stops_host (p ++ rest) ≡ true
unfolding ends_authority
stops_host-port p [] absent stop = refl
stops_host-port p (c ∷ rest) absent stop = ground arith
stops_host-port p rest (number ds ne all pos le) stop = refl

IsWsUri-strip_authority : (url : Bytes) (u : IsWsUri url) → strip_authority url ≡ some u.tail
unfolding strip_authority
IsWsUri-strip_authority url u = rw (
  u.splits,
  strip_scheme_all u.scheme _ u.is_scheme,
  strip_host_all u.host _ u.is_host (stops_host-port u.port u.tail u.is_port u.is_tail),
  strip_port_all u.port u.tail u.is_port u.is_tail,
  u.is_tail,
)

-- For a URL and a destination that are not null, `validate_ws_uri` succeeds with `copy` in the
-- destination exactly when `copy` is the URL itself, the URL is of the grammar (ws or wss, host,
-- port from 1 to 65535 if any, then nothing, a path or a query), and it fits the destination with its
-- terminator.
pub validate_ws_uri-IsWsUri :
    (url copy : Bytes) (destination_size : ℕ)
    → (validate_ws_uri (some url) true destination_size ≡ some copy)
      ↔ ((copy ≡ url) × IsWsUri url × (length url < destination_size))
unfolding validate_ws_uri
validate_ws_uri-IsWsUri url copy destination_size =
    (λ h. copied (ground arith), λ (e, u, le). ground (arith, IsWsUri-strip_authority url u))
  where
    copied :
        (strip_authority url >>= λ tail. guard (ltb (length url) destination_size) url) ≡ some copy
        → (copy ≡ url) × IsWsUri url × (length url < destination_size)
    copied h =
        let (tail, e, g) = >>=-eq-some (strip_authority url) _ h in
        let (le, same) = guard-eq-some (ltb (length url) destination_size) url g in
        (sym same, strip_authority-IsWsUri url tail e, ltb→lt _ _ le)
