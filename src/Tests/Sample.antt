-- ===== src/Tests/Sample.antt =====
-- A concrete platform, and a session on it, to run the code of openai_audio_streamer_glue.cpp on.
use mod_openai_realtime.Base.{
  str_eq, if◌then◌else◌, ℕ, ◌+◌, ◌-◌, ◌≤◌, ◌<◌, ◌≡◌, refl, true, false, [], ◌∷◌, ◌++◌, none, some,
  arith, leb, if◌then◌else◌, Bytes, codes, length, length-append, length-drop, take, drop,
}
use mod_openai_realtime.Services.{ByteBuffer, Platform}
use mod_openai_realtime.Streamer.{Streamer}
use mod_openai_realtime.Private.{Private}

-- The bytes held, and the room left.
pub record ListBuffer : Type 0 where
  pub held : Bytes
  pub room : ℕ

abbrev pub list_write : ListBuffer → Bytes → ListBuffer × ℕ
list_write b xs =
    if leb (length xs) b.room
    then (record { held = b.held ++ xs; room = b.room - length xs }, length b.held + length xs)
    else (b, 0)

abbrev pub list_toss : ListBuffer → ℕ → ListBuffer
list_toss b n = record {
  held = drop n b.held;
  room = b.room + (length b.held - length (drop n b.held));
}

pub list_write-fits :
    (b : ListBuffer) (xs : Bytes)
    → length xs ≤ b.room
    → list_write b xs
      ≡ (record { held = b.held ++ xs; room = b.room - length xs }, length b.held + length xs)
list_write-fits b xs h = ground arith

pub list_write-refused :
    (b : ListBuffer) (xs : Bytes) → b.room < length xs → list_write b xs ≡ (b, 0)
list_write-refused b xs h = ground arith

pub list_write-capacity :
    (b : ListBuffer) (xs : Bytes)
    → (list_write b xs).0.room + length (list_write b xs).0.held ≡ b.room + length b.held
list_write-capacity b xs = ground (arith, length-append b.held xs)

pub list_toss-capacity :
    (b : ListBuffer) (n : ℕ)
    → (list_toss b n).room + length (list_toss b n).held ≡ b.room + length b.held
list_toss-capacity b n = omega (arith, length-drop n b.held)

abbrev pub list_empty : ℕ → ListBuffer
list_empty n = record { held = []; room = n }

pub ListBuffer-create :
    (n : ℕ) (b : ListBuffer)
    → some (list_empty n) ≡ some b
    → (b.held ≡ []) × (b.room + length b.held ≡ n)
ListBuffer-create n b h = ground arith

abbrev pub list_buffer : ByteBuffer
list_buffer = record {
  Buffer = ListBuffer;
  create = λ n. some (list_empty n);
  contents = λ b. b.held;
  capacity = λ b. b.room + length b.held;
  inuse = λ b. length b.held;
  freespace = λ b. b.room;
  write = list_write;
  read = λ b n. (list_toss b n, take n b.held);
  toss = list_toss;
  zero = λ b. record { held = []; room = b.room + length b.held };
  create-empty = ListBuffer-create;
  inuse-contents = λ b. refl;
  freespace-capacity = λ b. refl;
  write_fits = λ b xs h. rw (list_write-fits b xs h) (refl, refl);
  write_refused = list_write-refused;
  read-contents = λ b n. (refl, refl);
  toss-contents = λ b n. refl;
  zero-contents = λ b. refl;
  write-capacity = list_write-capacity;
  read-capacity = list_toss-capacity;
  toss-capacity = list_toss-capacity;
  zero-capacity = λ b. omega arith;
}

-- A resampler that copies, a socket that counts its sends, JSON whose value is its text, whose delta is
-- always the same and whose other members are the text, and a base64 that changes nothing.
abbrev pub sample_platform : Platform
sample_platform = record {
  buffer = list_buffer;
  speex = record {
    State = ℕ;
    init = λ channels in_rate out_rate. (some 0, true);
    process = λ r input room. (r, some (length input, input));
    rates = λ r. (8000, 8000);
    scaled = λ n out in_rate. n;
  };
  socket = record {
    State = ℕ;
    configure = λ options. 0;
    start = λ w. some w;
    stop = λ w. w;
    is_open = λ w. true;
    send_text = λ w m. (w + 1, true);
    send_binary = λ w m. (w + 1, true);
    automatic_reconnection = λ w. true;
  };
  json = record {
    Value = Bytes;
    parse = λ t. some t;
    members = λ v. some [];
    get_cstr = λ v key. if str_eq key (codes "delta") then some (1 ∷ 2 ∷ []) else some v;
    delete_item = λ v key. v;
    create_string = λ t. some t;
    add_item = λ v key w. v ++ w;
    add_number = λ v key n. v ++ n ∷ [];
    create_object = some [];
    print_unformatted = λ v. some v;
  };
  base64 = record { encode = λ t. t; decode = λ t. some t };
}

-- Three samples queued, at 24 kHz throughout.
abbrev pub sample_streamer : Streamer sample_platform
sample_streamer = record {
  converter = record {
    in_sample_rate = 24000;
    out_sample_rate = 24000;
    resampler = none;
    pending_raw_byte = 7;
    has_pending_raw_byte = true;
  };
  socket = 0;
  queue = record { chunks = (1 ∷ 2 ∷ 3 ∷ []) ∷ []; samples = 3; overflow_logged = false };
  playback_clear_gen = 4;
  playback_clear_gen_seen = 4;
  suppress_log = false;
  disable_audiofiles = true;
  raw_audio_mode = true;
  openai_speaking = false;
  response_audio_done = false;
  terminal_close = false;
  send_failure_logged = false;
  capture_reset_pending = false;
  started = true;
  play_file = 0;
  files = [];
  on_disk = [];
  events = [];
  sent_audio = [];
}

abbrev pub sample_private : Private sample_platform
sample_private = record {
  session_id = codes "sample";
  resampler = none;
  streamer = some sample_streamer;
  sampling = 24000;
  channels = 1;
  audio_paused = false;
  user_audio_muted = false;
  openai_audio_muted = false;
  close_requested = false;
  sbuffer = record { held = 5 ∷ 6 ∷ []; room = 2 };
  rtp_packets = 2;
  playback_buffer = record { held = 9 ∷ 8 ∷ []; room = 127998 };
}
