-- ===== src/Message/Delta.antt =====
-- `processMessage` on an audio delta: what it does to the playback queue.
use mod_openai_realtime.Base.{
  ℕ, ◌≡◌, refl, sym, ap, ◌∙◌, subst, Bool, true, false, not, List, [], ◌∷◌, Option, none, some,
  arith, inl, ◌==◌, if◌then◌else◌, pos, Bytes, codes, length, append-nil,
}
use mod_openai_realtime.Services.{Platform}
use mod_openai_realtime.Protocol.Depth.{json_depth_exceeded}
use mod_openai_realtime.Protocol.Classify.{classify_json_message, audio_delta}
use mod_openai_realtime.Queue.{AudioQueue, max_playback_queue_samples}
use mod_openai_realtime.Queue.Refine.{IsValid, Fifo, push, contents, step-Fifo}
use mod_openai_realtime.Pcm.{Converter, convert_raw_audio}
use mod_openai_realtime.Streamer.{Streamer, play, notify, push_audio, queue_limit, convert}
use mod_openai_realtime.Message.{
  process_message, process_type, process_delta, take_delta, attach_file, queue_audio,
  max_json_depth,
}
use mod_openai_realtime.Message.Bounded.{IsBounded, convert-rate}
use mod_openai_realtime.Message.Files.{Env, save_debug_audio_file, is_empty}

module _ (p : Platform) where
  -- A delta of some audio, which decodes to `raw_audio`.
  pub record IsDelta (message : Bytes) (value : p.json.Value) (type audio raw_audio : Bytes)
      : Type 0 where
    pub shallow : json_depth_exceeded (some message) (pos max_json_depth) ≡ false
    pub parsed : p.json.parse message ≡ some value
    pub typed : p.json.get_cstr value (codes "type") ≡ some type
    pub delta : classify_json_message (some type) ≡ audio_delta
    pub has_audio : p.json.get_cstr value (codes "delta") ≡ some audio
    pub some_audio : is_empty audio ≡ false
    pub decoded : p.base64.decode audio ≡ some raw_audio

  -- The parts that the events and the debug file leave alone.
  abbrev Same : Streamer p → Streamer p → Type 0
  Same s s' =
      (s'.queue ≡ s.queue)
      × (s'.converter ≡ s.converter)
      × (s'.response_audio_done ≡ s.response_audio_done)

  save-Same :
      (env : Env) (raw_audio : Bytes) (s : Streamer p)
      → Same s (save_debug_audio_file p env false raw_audio s).0
  unfolding save_debug_audio_file
  save-Same env raw_audio s = ground arith

  attach_file-Same :
      (env : Env) (raw_audio : Bytes) (value : p.json.Value) (s : Streamer p)
      → Same s (attach_file p env raw_audio value s).0
  unfolding attach_file
  attach_file-Same env raw_audio value s = let saved = save-Same env raw_audio s in ground arith

  -- What `raw_audio` is to do to a converter and a queue: convert, and push what comes out, all or
  -- nothing; the message is handled if anything came out.
  pub record Added (c : Converter p.speex.State) (q : AudioQueue ℕ) (raw_audio : Bytes)
      (s : Streamer p) (handled : Bool) : Type 0 where
    pub converter : s.converter ≡ (convert_raw_audio p.speex c raw_audio).0
    pub is_handled : handled ≡ not (length (convert_raw_audio p.speex c raw_audio).1 == 0)
    pub in_line :
        Fifo
          (max_playback_queue_samples c.out_sample_rate)
          (push (convert_raw_audio p.speex c raw_audio).1)
          none
          (contents q)
          (contents s.queue)

  queue_samples-Fifo :
      (limit : ℕ) (samples : List ℕ) (s : Streamer p)
      → max_playback_queue_samples s.converter.out_sample_rate ≡ limit
      → IsValid limit s.queue
      → let r : Streamer p × Bool = elim samples [
        | [] ↦ (s, false)
        | x ∷ xs ↦ (push_audio p (x ∷ xs) s, true)
      ] in
        (r.0.converter ≡ s.converter)
        × (r.0.response_audio_done ≡ s.response_audio_done)
        × (r.1 ≡ not (length samples == 0))
        × Fifo limit (push samples) none (contents s.queue) (contents r.0.queue)
  unfolding push_audio queue_limit
  queue_samples-Fifo limit [] s e v =
      (refl, refl, refl, inl (omega (arith, v.counted, v.bounded), sym (append-nil _)))
  queue_samples-Fifo limit (x ∷ xs) s e v =
      (refl, refl, ground arith, rw e (step-Fifo limit s.queue (push (x ∷ xs)) (omega arith) v).1)

  queue_audio-Added :
      (raw_audio : Bytes) (s : Streamer p)
      → IsBounded p s
      → let r = queue_audio p raw_audio s in
        Added s.converter s.queue raw_audio r.0 r.1
        × (r.0.response_audio_done ≡ s.response_audio_done)
  unfolding queue_audio convert
  queue_audio-Added raw_audio s v =
      let (c, out) = convert_raw_audio p.speex s.converter raw_audio in
      let limit = max_playback_queue_samples s.converter.out_sample_rate in
      let (same, done, handled, line) =
        queue_samples-Fifo limit out (record s { converter = c })
          (ap max_playback_queue_samples (convert-rate p s.converter raw_audio)) v in
      (record { converter = same; is_handled = handled; in_line = line }, done)

  announced-Same :
      (printed : Option Bytes) (b : Bool) (s s1 : Streamer p)
      → Same s s1
      → Same s (elim printed [
        | none ↦ s1
        | some printed_text ↦ if b then notify p play (some printed_text) s1 else s1
      ])
  unfolding notify
  announced-Same none b s s1 same = same
  announced-Same (some printed_text) true s s1 same = same
  announced-Same (some printed_text) false s s1 same = same

  -- What is added to a streamer with the same queue and converter.
  queue_audio-Same :
      (raw_audio : Bytes) (s s2 : Streamer p)
      → IsBounded p s
      → Same s s2
      → let r = queue_audio p raw_audio s2 in
        Added s.converter s.queue raw_audio r.0 r.1
        × (r.0.response_audio_done ≡ s.response_audio_done)
  queue_audio-Same raw_audio s s2 v (same_queue, same_converter, same_done) =
      let bounded : IsBounded p s2 =
        subst (λ c. IsValid (max_playback_queue_samples c.out_sample_rate) s2.queue)
          (sym same_converter)
          (subst (IsValid (max_playback_queue_samples s.converter.out_sample_rate)) (sym same_queue)
            v) in
      let r = queue_audio p raw_audio s2 in
      let (added, done) = queue_audio-Added raw_audio s2 bounded in
      (
        subst (λ c. Added c s.queue raw_audio r.0 r.1) same_converter
            (subst (λ q. Added s2.converter q raw_audio r.0 r.1) same_queue added),
        done ∙ same_done,
      )

  take_delta-Added :
      (env : Env) (raw_audio : Bytes) (value : p.json.Value) (message : Bytes) (s : Streamer p)
      → IsBounded p s
      → let r = take_delta p env raw_audio value message s in
        Added s.converter s.queue raw_audio r.0 r.1
        × (r.0.response_audio_done ≡ s.response_audio_done)
  unfolding take_delta
  take_delta-Added env raw_audio value message s v =
      let value1 = p.json.delete_item value (codes "delta") in
      let (s1, value2, notify_play) = attach_file p env raw_audio value1 s in
      queue_audio-Same raw_audio s _ v (
        announced-Same (p.json.print_unformatted value2) notify_play s s1
          (attach_file-Same env raw_audio value1 s))

  process_delta-take_delta :
      (env : Env) (message : Bytes) (value : p.json.Value) (type audio raw_audio : Bytes)
      (s : Streamer p)
      → IsDelta message value type audio raw_audio
      → process_delta p env value message s
        ≡ take_delta p env raw_audio value message (record s { response_audio_done = false })
  unfolding process_delta
  process_delta-take_delta env message value type audio raw_audio s d =
      rw (process_delta, d.has_audio, d.some_audio, d.decoded) refl

  process_message-process_delta :
      (env : Env) (message : Bytes) (value : p.json.Value) (type audio raw_audio : Bytes)
      (s : Streamer p)
      → IsDelta message value type audio raw_audio
      → process_message p env message s ≡ process_delta p env value message s
  unfolding process_message process_type
  process_message-process_delta env message value type audio raw_audio s d =
      rw (d.shallow, d.parsed, d.typed, d.delta) refl

  -- On a valid queue, for a message that is an audio delta (not nested too deeply, with a text that
  -- base64 decodes to `raw_audio`): whatever becomes of the debug file and of the events, the converter
  -- moves on over `raw_audio`, the samples that come out are appended to the queue, all of them if the
  -- backlog allows it and else none, the response counts as not done, and the message is
  -- handled exactly if a sample came out.
  pub process_message-Added :
      (env : Env) (message : Bytes) (value : p.json.Value) (type audio raw_audio : Bytes)
      (s : Streamer p)
      → IsBounded p s
      → IsDelta message value type audio raw_audio
      → let r = process_message p env message s in
        Added s.converter s.queue raw_audio r.0 r.1 × (r.0.response_audio_done ≡ false)
  process_message-Added env message value type audio raw_audio s v d =
      rw
        (
          process_message-process_delta env message value type audio raw_audio s d,
          process_delta-take_delta env message value type audio raw_audio s d,
        )
        (take_delta-Added env raw_audio value message (record s { response_audio_done = false }) v)
