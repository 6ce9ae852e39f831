-- ===== src/Services.antt =====
-- What the module uses of libraries that are not in the repository, as interfaces: FreeSWITCH's byte
-- buffer, the Speex resampler, the WebSocket client, cJSON, and the vendored base64. The laws state
-- documented behaviour; `Contents` is the view that they are stated by.
use mod_openai_realtime.Base.{
  ℕ, ◌+◌, ◌≤◌, ◌<◌, ◌≡◌, Bool, List, [], ◌++◌, Option, some, Bytes, length, take, drop,
}

-- `switch_buffer_t` of a fixed size. `write` returns how many bytes are in use, or 0 when the bytes
-- do not fit and nothing is written; `read` and `toss` take bytes from the front.
pub record ByteBuffer : Type 1 where
  pub Buffer : Type 0
  -- `none` when the buffer cannot be created.
  pub create : ℕ → Option Buffer
  pub contents : Buffer → Bytes
  pub capacity : Buffer → ℕ
  pub inuse : Buffer → ℕ
  pub freespace : Buffer → ℕ
  pub write : Buffer → Bytes → Buffer × ℕ
  pub read : Buffer → ℕ → Buffer × Bytes
  pub toss : Buffer → ℕ → Buffer
  pub zero : Buffer → Buffer
  pub create-empty : (n : ℕ) (b : Buffer) → create n ≡ some b → (contents b ≡ []) × (capacity b ≡ n)
  pub inuse-contents : (b : Buffer) → inuse b ≡ length (contents b)
  pub freespace-capacity : (b : Buffer) → freespace b + length (contents b) ≡ capacity b
  pub write_fits :
      (b : Buffer) (xs : Bytes)
      → length xs ≤ freespace b
      → (contents (write b xs).0 ≡ contents b ++ xs)
        × ((write b xs).1 ≡ length (contents b) + length xs)
  pub write_refused : (b : Buffer) (xs : Bytes) → freespace b < length xs → write b xs ≡ (b, 0)
  pub read-contents :
      (b : Buffer) (n : ℕ)
      → (contents (read b n).0 ≡ drop n (contents b)) × ((read b n).1 ≡ take n (contents b))
  pub toss-contents : (b : Buffer) (n : ℕ) → contents (toss b n) ≡ drop n (contents b)
  pub zero-contents : (b : Buffer) → contents (zero b) ≡ []
  pub write-capacity : (b : Buffer) (xs : Bytes) → capacity (write b xs).0 ≡ capacity b
  pub read-capacity : (b : Buffer) (n : ℕ) → capacity (read b n).0 ≡ capacity b
  pub toss-capacity : (b : Buffer) (n : ℕ) → capacity (toss b n) ≡ capacity b
  pub zero-capacity : (b : Buffer) → capacity (zero b) ≡ capacity b

-- `SpeexResamplerState`. `init` takes the channels and both rates, and gives null or a resampler, and
-- whether the error code is a success. `process r input room` gives the samples used of the input and those
-- written, or `none` for an error code. `scaled n out in` is the `double` computation
-- `n * out / in`, cut to a whole number.
pub record Resampler : Type 1 where
  pub State : Type 0
  pub init : ℕ → ℕ → ℕ → Option State × Bool
  pub process : State → List ℕ → ℕ → State × Option (ℕ × List ℕ)
  pub rates : State → ℕ × ℕ
  pub scaled : ℕ → ℕ → ℕ → ℕ

-- What the constructor of AudioStreamer sets on the client. A header is assigned by its name.
pub record SocketOptions : Type 0 where
  pub url : Bytes
  pub ca_file : Option Bytes
  pub key_file : Option Bytes
  pub cert_file : Option Bytes
  pub disable_hostname_validation : Bool
  pub ping_interval : Option ℕ
  pub deflate : Bool
  pub headers : List (Bytes × Bytes)
  pub reconnection : Bool

-- `ix::WebSocket`: a client with its options; `start`, which is `none` for an exception, and `stop`;
-- whether the ready state is Open, and the sends with their `success`.
pub record Socket : Type 1 where
  pub State : Type 0
  pub configure : SocketOptions → State
  pub start : State → Option State
  pub stop : State → State
  pub is_open : State → Bool
  pub send_text : State → Bytes → State × Bool
  pub send_binary : State → Bytes → State × Bool
  pub automatic_reconnection : State → Bool

-- cJSON. `members` are an object's children, each with its name and its text if these are there, and
-- `none` for a value that is no object. Elsewhere `none` is a parse error, a missing or non-string member, or a failed allocation.
pub record Json : Type 1 where
  pub Value : Type 0
  pub parse : Bytes → Option Value
  pub members : Value → Option (List (Option Bytes × Option Bytes))
  pub get_cstr : Value → Bytes → Option Bytes
  pub delete_item : Value → Bytes → Value
  pub create_string : Bytes → Option Value
  pub add_item : Value → Bytes → Value → Value
  pub add_number : Value → Bytes → ℕ → Value
  pub create_object : Option Value
  pub print_unformatted : Value → Option Bytes

-- base64.cpp of René Nyffenegger. `none` is an exception of `base64_decode`.
pub record Base64 : Type 0 where
  pub encode : Bytes → Bytes
  pub decode : Bytes → Option Bytes

-- All of them together.
pub record Platform : Type 1 where
  pub buffer : ByteBuffer
  pub speex : Resampler
  pub socket : Socket
  pub json : Json
  pub base64 : Base64
