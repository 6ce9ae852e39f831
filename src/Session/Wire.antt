-- ===== src/Session/Wire.antt =====
-- What a stop puts on the wire: the audio that waits, and then the final JSON.
use mod_openai_realtime.Base.{
  ◌≡◌, refl, sym, ap, ◌∙◌, Bool, true, false, List, [], ◌∷◌, ◌++◌, Option, none, some, arith, ◌==◌,
  if◌then◌else◌, Bool-cases, Option-cases, inl, inr, Bytes, length, take_all, append-nil,
  length-zero,
}
use mod_openai_realtime.Services.{Platform}
use mod_openai_realtime.Streamer.{Streamer, is_connected}
use mod_openai_realtime.Streamer.Sending.{send_audio, record_send, write_binary, write_text}
use mod_openai_realtime.Private.{Private}
use mod_openai_realtime.Capture.{flush_buffer, flush_capture_residue}
use mod_openai_realtime.Message.{c_str}
use mod_openai_realtime.Message.Files.{is_empty}
use mod_openai_realtime.Session.{send_json, send_decoded, send_value, flush_and_send}

-- A message that the WebSocket client accepted.
pub data Sent : Type 0 where
  text binary : Bytes → Sent

-- A view of the client: the messages that it accepted. While it is open it accepts what it is given, and
-- audio leaves it open.
pub record Wire (p : Platform) : Type 0 where
  pub sent : p.socket.State → List Sent
  pub accepts_text :
      (w : p.socket.State) (m : Bytes)
      → p.socket.is_open w ≡ true
      → ((p.socket.send_text w m).1 ≡ true)
        × (sent (p.socket.send_text w m).0 ≡ sent w ++ text m ∷ [])
  pub accepts_binary :
      (w : p.socket.State) (m : Bytes)
      → p.socket.is_open w ≡ true
      → ((p.socket.send_binary w m).1 ≡ true)
        × (sent (p.socket.send_binary w m).0 ≡ sent w ++ binary m ∷ [])
        × (p.socket.is_open (p.socket.send_binary w m).0 ≡ true)

-- The audio that waits is one message, if there is any.
abbrev pub residue : Bytes → List Sent
residue [] = []
residue (c ∷ cs) = binary (c ∷ cs) ∷ []

some_residue : (xs : Bytes) → (length xs == 0) ≡ false → residue xs ≡ binary xs ∷ []
some_residue [] h = absurd (ground (arith, h))
some_residue (c ∷ cs) h = refl

module _ (p : Platform) where
  -- The text that a `send_json` of some base64 stands for, if it decodes to JSON.
  unfoldable pub json_text : Bytes → Option Bytes
  json_text input = elim (p.base64.decode input) [
    | none ↦ none
    | some decoded ↦ if is_empty decoded then none else elim (p.json.parse (c_str decoded)) [
      | none ↦ none
      | some value ↦ p.json.print_unformatted value
    ]
  ]

  -- The messages of a final JSON, and whether the call succeeds.
  abbrev pub told : Option Bytes → List Sent × Bool
  told none = ([], false)
  told (some printed) = (text printed ∷ [], true)

  abbrev pub final : Option Bytes → List Sent × Bool
  final none = ([], true)
  final (some input) = if is_empty input then ([], true) else told (json_text input)

  module _ (wire : Wire p) where
    open wire use {sent}

    -- A session whose client has accepted `before` and then `new`, with a status, and the audio that
    -- still waits.
    pub record Put (before : List Sent) (new : List Sent × Bool) (waiting : Bytes)
        (r : Private p × Bool) : Type 0 where
      pub streamer : Streamer p
      pub has_streamer : r.0.streamer ≡ some streamer
      pub messages : sent streamer.socket ≡ before ++ new.0
      pub status : r.1 ≡ new.1
      pub waits : p.buffer.contents r.0.sbuffer ≡ waiting

    untold :
        (tech : Private p) (s : Streamer p) (status : Bool)
        → tech.streamer ≡ some s
        → Put (sent s.socket) ([], status) (p.buffer.contents tech.sbuffer) (tech, status)
    untold tech s status e = record {
      streamer = s;
      has_streamer = e;
      messages = sym (append-nil (sent s.socket));
      status = refl;
      waits = refl;
    }

    send_value-Put :
        (tech : Private p) (s : Streamer p) (value : p.json.Value)
        → tech.streamer ≡ some s
        → p.socket.is_open s.socket ≡ true
        → Put
            (sent s.socket)
            (told (p.json.print_unformatted value))
            (p.buffer.contents tech.sbuffer)
            (send_value p tech s value)
    unfolding send_value write_text is_connected
    send_value-Put tech s value e opened = elim (Option-cases (p.json.print_unformatted value)) [
      | inl h ↦ simp (send_value, h) (untold tech s false e)
      | inr (printed, h) ↦
          let a = wire.accepts_text s.socket printed opened in
          simp (send_value, h, opened)
            (record {
              streamer = record s { socket = (p.socket.send_text s.socket printed).0 };
              has_streamer = refl;
              messages = a.1;
              status = a.0;
              waits = refl;
            })
    ]

    send_json-Put :
        (tech : Private p) (s : Streamer p) (input : Bytes)
        → tech.streamer ≡ some s
        → p.socket.is_open s.socket ≡ true
        → is_empty input ≡ false
        → Put
            (sent s.socket)
            (told (json_text input))
            (p.buffer.contents tech.sbuffer)
            (send_json p (some input) tech)
    unfolding send_json send_decoded json_text
    send_json-Put tech s input e opened given = elim (Option-cases (p.base64.decode input)) [
      | inl h ↦ simp (send_json, json_text, e, given, h) (untold tech s false e)
      | inr (decoded, h) ↦ elim (Bool-cases (is_empty decoded)) [
        | inl i ↦ simp (send_json, json_text, e, given, h, i) (untold tech s false e)
        | inr i ↦ elim (Option-cases (p.json.parse (c_str decoded))) [
          | inl j ↦ simp (send_json, json_text, e, given, h, i, j) (untold tech s false e)
          | inr (value, j) ↦
              simp (send_json, json_text, e, given, h, i, j) (send_value-Put tech s value e opened)
        ]
      ]
    ]

    -- The audio that waits is sent, and nothing waits any more.
    flush_buffer-Put :
        (b : p.buffer.Buffer) (s : Streamer p)
        → s.raw_audio_mode ≡ true
        → p.socket.is_open s.socket ≡ true
        → let (b', s') = flush_buffer p b s in
          (sent s'.socket ≡ sent s.socket ++ residue (p.buffer.contents b))
          × (p.socket.is_open s'.socket ≡ true)
          × (p.buffer.contents b' ≡ [])
    unfolding flush_buffer is_connected send_audio record_send write_binary
    flush_buffer-Put b s raw opened = elim (Bool-cases (p.buffer.inuse b == 0)) [
      | inl e ↦
          let none_left =
            length-zero (p.buffer.contents b) (ground (arith, p.buffer.inuse-contents b)) in
          rw (e, none_left) (sym (append-nil (sent s.socket)), opened, refl)
      | inr e ↦
          let waiting = (p.buffer.read b (p.buffer.inuse b)).1 in
          let whole : waiting ≡ p.buffer.contents b =
            (p.buffer.read-contents b (p.buffer.inuse b)).1
            ∙ take_all (p.buffer.inuse b) (p.buffer.contents b)
                (omega (arith, p.buffer.inuse-contents b)) in
          let a = wire.accepts_binary s.socket waiting opened in
          let some_left : (length (p.buffer.contents b) == 0) ≡ false =
            ground (arith, e, p.buffer.inuse-contents b) in
          rw (e, opened, raw, some_residue (p.buffer.contents b) some_left)
            (
              a.1 ∙ ap (λ m. sent s.socket ++ binary m ∷ []) whole,
              a.2,
              p.buffer.zero-contents (p.buffer.read b (p.buffer.inuse b)).0,
            )
    ]

    abbrev flushed : Private p → Streamer p → Private p
    flushed tech s = record tech {
      sbuffer = (flush_buffer p tech.sbuffer s).0;
      streamer = some (flush_buffer p tech.sbuffer s).1;
    }

    flush_capture_residue-flushed :
        (tech : Private p) (s : Streamer p)
        → tech.streamer ≡ some s
        → flush_capture_residue p tech ≡ flushed tech s
    unfolding flush_capture_residue
    flush_capture_residue-flushed tech s e = simp (flush_capture_residue, e) refl

    -- The part of a stop before the media bug is removed, on a connected session that sends raw audio, with
    -- or without a final text, and for a client that accepts all that it is given while it is open. The
    -- messages that the client has accepted are those from before, then the audio that was waiting, if any, as one
    -- message, and then, if the final text is base64 of JSON, that JSON printed anew. No captured audio
    -- waits any more, and this part fails exactly if there is a final text that is not empty and gives no
    -- such message.
    pub flush_and_send-Put :
        (tech : Private p) (s : Streamer p) (input : Option Bytes)
        → tech.streamer ≡ some s
        → s.raw_audio_mode ≡ true
        → p.socket.is_open s.socket ≡ true
        → Put
            (sent s.socket ++ residue (p.buffer.contents tech.sbuffer))
            (final input)
            []
            (flush_and_send p input tech)
    unfolding flush_and_send
    flush_and_send-Put tech s none e raw opened =
        let (messages, _opened, none_left) = flush_buffer-Put tech.sbuffer s raw opened in
        let s' = (flush_buffer p tech.sbuffer s).1 in
        simp (flush_and_send, flush_capture_residue-flushed tech s e, ← messages, ← none_left)
          (untold (flushed tech s) s' true refl)
    flush_and_send-Put tech s (some input) e raw opened =
        let (messages, opened', none_left) = flush_buffer-Put tech.sbuffer s raw opened in
        let tech' = flushed tech s in
        let s' = (flush_buffer p tech.sbuffer s).1 in
        let flushes = flush_capture_residue-flushed tech s e in
        elim (Bool-cases (is_empty input)) [
          | inl i ↦
              simp (flush_and_send, flushes, i, ← messages, ← none_left) (untold tech' s' true refl)
          | inr i ↦
              simp (flush_and_send, flushes, i, ← messages, ← none_left)
                (simp i at (send_json-Put tech' s' input refl opened' i))
        ]
