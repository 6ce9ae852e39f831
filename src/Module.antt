-- ===== src/Module.antt =====
-- mod_openai_audio_stream.c: `mod_openai_audio_stream_load`, `mod_openai_audio_stream_shutdown`,
-- `free_event_subclasses`, `responseHandler`, and the two API functions. FreeSWITCH's registry of event
-- subclasses is an interface; `consoles` is what
-- `switch_console_set_complete` was called with.
pub mod Load
use mod_openai_realtime.Base.{
  Bool, true, false, List, [], ◌∷◌, ◌++◌, Option, if◌then◌else◌, Bytes, codes, ◌≡◌, ◌≢◌,
}
use mod_openai_realtime.Services.{Platform}
use mod_openai_realtime.Streamer.{
  EventName, connect, disconnect, error, json, play, openai_speech_start, openai_speech_stop, Event,
}
use mod_openai_realtime.Lifecycle.{Channel, Media}
use mod_openai_realtime.Command.Execute.{stream_api_execute, Reply}

-- Who holds a subclass.
pub data Owner : Type 0 where
  nobody this_module another : Owner

-- A free of a subclass that this module does not hold does nothing.
abbrev pub freed : Owner → Owner
freed this_module = nobody
freed nobody = nobody
freed another = another

abbrev pub same_name : EventName → EventName → Bool
same_name connect connect = true
same_name disconnect disconnect = true
same_name error error = true
same_name json json = true
same_name play play = true
same_name openai_speech_start openai_speech_start = true
same_name openai_speech_stop openai_speech_stop = true
same_name _ _ = false

-- `switch_event_reserve_subclass`, with whether it succeeds, which it does only for a name that nobody
-- holds, and `switch_event_free_subclass`, which frees what this module holds and nothing else.
pub record EventRegistry : Type 1 where
  pub Table : Type 0
  pub owner : Table → EventName → Owner
  pub reserve : EventName → Table → Table × Bool
  pub free : EventName → Table → Table
  pub reserve_free : (e : EventName) (t : Table) → (reserve e t).1 ≡ true → owner t e ≡ nobody
  pub reserve-owner :
      (e x : EventName) (t : Table)
      → (reserve e t).1 ≡ true
      → owner (reserve e t).0 x ≡ (if same_name e x then this_module else owner t x)
  pub reserve_refused :
      (e x : EventName) (t : Table) → (reserve e t).1 ≡ false → owner (reserve e t).0 x ≡ owner t x
  pub free-owner :
      (e x : EventName) (t : Table)
      → owner (free e t) x ≡ (if same_name e x then freed (owner t e) else owner t x)

-- `stream_api_config_t`: the command's name, and whether its sessions send raw audio.
pub record ApiConfig : Type 0 where
  pub name : Bytes
  pub force_raw_audio_mode : Bool

abbrev pub stream_api_config : ApiConfig
stream_api_config = record { name = codes "uuid_openai_audio_stream"; force_raw_audio_mode = false }

abbrev pub raw_stream_api_config : ApiConfig
raw_stream_api_config = record { name = codes "uuid_raw_audio_stream"; force_raw_audio_mode = true }

-- `stream_function` and `raw_stream_function`.
unfoldable pub api_function :
    (p : Platform) (api : ApiConfig) (m : Media) (located locked : Bool) (words : List Bytes)
    → Channel p
    → Channel p × List Reply
api_function p api m located locked words ch =
    stream_api_execute p m api.force_raw_audio_mode located locked words ch

-- `responseHandler`: the events that are fired, if FreeSWITCH can create one.
unfoldable pub response_handler : Bool → EventName → Option Bytes → List Event → List Event
response_handler created name body fired =
    if created then fired ++ record { name = name; body = body } ∷ [] else fired

-- The order in which the subclasses are reserved, and in which they are freed.
abbrev pub reserved_subclasses : List EventName
reserved_subclasses =
    json ∷ connect ∷ error ∷ disconnect ∷ play ∷ openai_speech_start ∷ openai_speech_stop ∷ []

abbrev pub freed_subclasses : List EventName
freed_subclasses =
    json ∷ connect ∷ disconnect ∷ error ∷ play ∷ openai_speech_start ∷ openai_speech_stop ∷ []

abbrev pub completions : List Bytes
completions =
    codes "add uuid_openai_audio_stream ::console::list_uuid start ws-uri"
    ∷ codes "add uuid_openai_audio_stream ::console::list_uuid stop"
    ∷ codes "add uuid_openai_audio_stream ::console::list_uuid pause"
    ∷ codes "add uuid_openai_audio_stream ::console::list_uuid resume"
    ∷ codes "add uuid_openai_audio_stream ::console::list_uuid mute"
    ∷ codes "add uuid_openai_audio_stream ::console::list_uuid unmute"
    ∷ codes "add uuid_openai_audio_stream ::console::list_uuid send_json"
    ∷ codes "add uuid_raw_audio_stream ::console::list_uuid start ws-uri"
    ∷ codes "add uuid_raw_audio_stream ::console::list_uuid stop"
    ∷ codes "add uuid_raw_audio_stream ::console::list_uuid pause"
    ∷ codes "add uuid_raw_audio_stream ::console::list_uuid resume"
    ∷ codes "add uuid_raw_audio_stream ::console::list_uuid mute"
    ∷ codes "add uuid_raw_audio_stream ::console::list_uuid unmute"
    ∷ codes "add uuid_raw_audio_stream ::console::list_uuid send_json"
    ∷ []

module _ (r : EventRegistry) where
  -- The registry, and what the module added to FreeSWITCH.
  pub record Loading : Type 0 where
    pub table : r.Table
    pub apis : List ApiConfig
    pub consoles : List Bytes

  unfoldable pub free_all : List EventName → r.Table → r.Table
  free_all [] t = t
  free_all (e ∷ es) t = free_all es (r.free e t)

  unfoldable pub free_event_subclasses : r.Table → r.Table
  unfolding free_all
  free_event_subclasses t = free_all freed_subclasses t

  -- The chain of `||`: the first failure ends it.
  unfoldable pub reserve_all : List EventName → r.Table → r.Table × Bool
  reserve_all [] t = (t, true)
  reserve_all (e ∷ es) t =
      let (t', success) = r.reserve e t in
      let rest = reserve_all es t' in if success then rest else (t', false)

  -- Whether the module is to stay loaded.
  unfoldable pub load : Loading → Loading × Bool
  unfolding reserve_all free_event_subclasses
  load l =
      let (t, success) = reserve_all reserved_subclasses l.table in
      if success
      then (
        record {
          table = t;
          apis = l.apis ++ stream_api_config ∷ raw_stream_api_config ∷ [];
          consoles = l.consoles ++ completions;
        },
        true,
      )
      else (record l { table = free_event_subclasses t }, false)

  unfoldable pub shutdown : r.Table → r.Table
  unfolding free_event_subclasses
  shutdown t = free_event_subclasses t
