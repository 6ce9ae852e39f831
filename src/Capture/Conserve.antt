-- ===== src/Capture/Conserve.antt =====
-- Captured audio is neither lost nor reordered as long as the WebSocket accepts it.
use mod_openai_realtime.Base.{
  ℕ, zero, suc, ◌≤◌, ◌<◌, min, ◌≡◌, refl, sym, ap, ◌∙◌, inl, inr, Bool, true, false, [], ◌∷◌, ◌++◌,
  arith, ◌==◌, Bool-cases, Bytes, length, take, drop, flatten, flatten-append, append-nil,
  append_assoc, take_all, length-zero, length-take, length-drop, take-append-drop,
}
use mod_openai_realtime.Services.{Platform}
use mod_openai_realtime.Streamer.{Streamer, is_connected}
use mod_openai_realtime.Streamer.Sending.{send_audio, record_send, write_binary}
use mod_openai_realtime.Capture.{flush_buffer, make_room, buffer_audio}

module _ (p : Platform) where
  open p use {buffer, socket}

  -- An open socket accepts what it is given, and stays open.
  pub record Accepts : Type 0 where
    pub accepted :
        (w : socket.State) (m : Bytes) → socket.is_open w ≡ true → (socket.send_binary w m).1 ≡ true
    pub stays_open :
        (w : socket.State) (m : Bytes)
        → socket.is_open w ≡ true
        → socket.is_open (socket.send_binary w m).0 ≡ true

  -- A connected stream of raw audio.
  pub record IsRaw (s : Streamer p) : Type 0 where
    pub raw : s.raw_audio_mode ≡ true
    pub open_socket : socket.is_open s.socket ≡ true

  -- The audio captured so far: sent, then waiting.
  abbrev pub captured : buffer.Buffer → Streamer p → Bytes
  captured b s = flatten s.sent_audio ++ buffer.contents b

  module _ (accepts : Accepts) where
    pub send_audio-IsRaw :
        (audio : Bytes) (s : Streamer p)
        → IsRaw s
        → IsRaw (send_audio p audio s).0
          × (flatten (send_audio p audio s).0.sent_audio ≡ flatten s.sent_audio ++ audio)
    unfolding send_audio record_send write_binary is_connected
    send_audio-IsRaw audio s r =
        rw (r.raw, r.open_socket, accepts.accepted s.socket audio r.open_socket)
          (
            record { raw = refl; open_socket = accepts.stays_open s.socket audio r.open_socket },
            flatten-append s.sent_audio (audio ∷ [])
                ∙ ap (◌++◌ (flatten s.sent_audio)) (append-nil audio),
          )

    -- What a step of the capture keeps: the capacity, and all audio, followed by `more`.
    pub record Keeps (b : buffer.Buffer) (s : Streamer p) (more : Bytes) (b' : buffer.Buffer)
        (s' : Streamer p) : Type 0 where
      pub raw : IsRaw s'
      pub capacity : buffer.capacity b' ≡ buffer.capacity b
      pub audio : captured b' s' ≡ captured b s ++ more

    pub Keeps-refl : (b : buffer.Buffer) (s : Streamer p) → IsRaw s → Keeps b s [] b s
    Keeps-refl b s r = record { raw = r; capacity = refl; audio = sym (append-nil _) }

    pub Keeps-trans :
        {b b' b'' : buffer.Buffer} {s s' s'' : Streamer p} {m m' : Bytes}
        → Keeps b s m b' s'
        → Keeps b' s' m' b'' s''
        → Keeps b s (m ++ m') b'' s''
    Keeps-trans {b} {s = s} {m = m} {m' = m'} k l = record {
      raw = l.raw;
      capacity = l.capacity ∙ k.capacity;
      audio = l.audio ∙ ap (λ x. x ++ m') k.audio ∙ append_assoc (captured b s) m m';
    }

    pub Keeps-as :
        {b b' : buffer.Buffer} {s s' : Streamer p} {m m' : Bytes}
        → m ≡ m'
        → Keeps b s m b' s'
        → Keeps b s m' b' s'
    Keeps-as {b} {s = s} e k = record {
      raw = k.raw;
      capacity = k.capacity;
      audio = k.audio ∙ ap (◌++◌ (captured b s)) e;
    }

    pub flush_buffer-Keeps :
        (b : buffer.Buffer) (s : Streamer p)
        → IsRaw s
        → Keeps b s [] (flush_buffer p b s).0 (flush_buffer p b s).1
          × (buffer.contents (flush_buffer p b s).0 ≡ [])
    unfolding flush_buffer is_connected
    flush_buffer-Keeps b s r = elim (Bool-cases (buffer.inuse b == 0)) [
      | inl e ↦ rw e (
        Keeps-refl b s r,
        length-zero (buffer.contents b) (ground (arith, buffer.inuse-contents b)),
      )
      | inr e ↦
          let read = buffer.read-contents b (buffer.inuse b) in
          let sent = send_audio-IsRaw (buffer.read b (buffer.inuse b)).1 s r in
          let none_left = buffer.zero-contents (buffer.read b (buffer.inuse b)).0 in
          rw (e, r.open_socket)
            (
              record {
                raw = sent.0;
                capacity =
                    buffer.zero-capacity (buffer.read b (buffer.inuse b)).0
                    ∙ buffer.read-capacity b (buffer.inuse b);
                audio = rw (
                  none_left,
                  sent.1,
                  read.1,
                  take_all (buffer.inuse b) (buffer.contents b)
                      (omega (arith, buffer.inuse-contents b)),
                );
              },
              none_left,
            )
    ]

    make_room-Keeps :
        (b : buffer.Buffer) (s : Streamer p)
        → IsRaw s
        → 0 < buffer.capacity b
        → Keeps b s [] (make_room p b s).0 (make_room p b s).1
          × (0 < buffer.freespace (make_room p b s).0)
    unfolding make_room
    make_room-Keeps b s r pos = elim (Bool-cases (buffer.freespace b == 0)) [
      | inl e ↦
          let (k, none_left) = flush_buffer-Keeps b s r in
          rw e (
            k,
            omega (
              arith,
              k.capacity,
              ap length none_left,
              buffer.freespace-capacity (flush_buffer p b s).0,
            ),
          )
      | inr e ↦ rw e (Keeps-refl b s r, ground arith)
    ]

    write-Keeps :
        (b : buffer.Buffer) (s : Streamer p) (xs : Bytes)
        → IsRaw s
        → length xs ≤ buffer.freespace b
        → Keeps b s xs (buffer.write b xs).0 s
    write-Keeps b s xs r h = record {
      raw = r;
      capacity = buffer.write-capacity b xs;
      audio =
          ap (◌++◌ (flatten s.sent_audio)) (buffer.write_fits b xs h).0
          ∙ sym (append_assoc (flatten s.sent_audio) (buffer.contents b) xs);
    }

    abbrev pub Buffers :
        buffer.Buffer → Streamer p → Bytes → Bool × buffer.Buffer × Streamer p → Type 0
    Buffers b s audio r = (r.0 ≡ true) × Keeps b s audio r.1 r.2

    -- The loop ends with all of the audio taken, and the fuel it has is enough.
    pub buffer_audio-Keeps :
        (fuel : ℕ) (audio : Bytes) (b : buffer.Buffer) (s : Streamer p)
        → length audio ≤ fuel
        → IsRaw s
        → 0 < buffer.capacity b
        → Buffers b s audio (buffer_audio p fuel audio b s)
    unfolding buffer_audio
    buffer_audio-Keeps zero [] b s h r pos = (refl, Keeps-refl b s r)
    buffer_audio-Keeps zero (c ∷ cs) b s h r pos = absurd (omega arith)
    buffer_audio-Keeps (suc fuel) [] b s h r pos = (refl, Keeps-refl b s r)
    buffer_audio-Keeps (suc fuel) (c ∷ cs) b s h r pos =
        let (k1, room) = make_room-Keeps b s r pos in
        let b1 = (make_room p b s).0 in
        let s1 = (make_room p b s).1 in
        let write_len : ℕ = min (length (c ∷ cs)) (buffer.freespace b1) in
        let fits : length (take write_len (c ∷ cs)) ≤ buffer.freespace b1 =
          omega (arith, length-take write_len (c ∷ cs)) in
        let k2 = write-Keeps b1 s1 (take write_len (c ∷ cs)) k1.raw fits in
        let b2 = (buffer.write b1 (take write_len (c ∷ cs))).0 in
        let (k3, _room) = make_room-Keeps b2 s1 k2.raw (omega (arith, k2.capacity, k1.capacity)) in
        let (ok, k4) =
          buffer_audio-Keeps fuel (drop write_len (c ∷ cs)) (make_room p b2 s1).0
            (make_room p b2 s1).1 (omega (arith, length-drop write_len (c ∷ cs))) k3.raw
            (omega (arith, k3.capacity, k2.capacity, k1.capacity)) in
        let has_room : (buffer.freespace b1 == 0) ≡ false = ground (arith, room) in
        let wrote : ((buffer.write b1 (take write_len (c ∷ cs))).1 == 0) ≡ false = ground (
          arith,
          (buffer.write_fits b1 (take write_len (c ∷ cs)) fits).1,
          length-take write_len (c ∷ cs),
          room,
        ) in
        rw (has_room, wrote)
          (
            ok,
            Keeps-as (take-append-drop write_len (c ∷ cs))
                (Keeps-trans k1 (Keeps-trans k2 (Keeps-trans k3 k4))),
          )
