-- ===== src/Runtime/Modes.antt =====
-- pihub/runtime.py: start, _correct_startup_mode, set_mode and _commit_mode_internal.
use Prim.Native.String.{◌++◌ as str_append}
use pihub_remote_nrf.Prelude.{
  String, Bool, true, false, not, Option, none, some, List, ◌==◌, ◌&&◌, ◌||◌, if◌then◌else◌,
  is_some,
}
use pihub_remote_nrf.Prelude.Text.{strip, is_empty}
use pihub_remote_nrf.Prelude.Json.{
  Value, obj, Fields, get_field, JsonFile, missing, unreadable, holds, text_value, text_or,
}
use pihub_remote_nrf.Runtime.State.{
  Engine, Reply, mode_set, refused, ignored, fallback_mode, note_trigger, set_runtime_ok,
  set_runtime_error, valid_modes, accepts, bind_mode, remember,
}

-- What a call makes of the engine, and what it returns.
pub record Called : Type 0 where
  pub engine : Engine
  pub reply : Reply

-- The two parts of mode.json, where the load succeeds.
abbrev pub fallback : String × Option String
fallback = (fallback_mode, none)

module _ (str_of : Value → String) where
  unfoldable pub load_fields : Fields → String × Option String
  unfolding text_value text_or get_field
  load_fields fields = elim (get_field "mode" fields) [
    | none ↦ fallback
    | some v ↦
        (let mode = text_value str_of v in
          (mode, some (text_or str_of mode (get_field "last_flow" fields))))
  ]

  -- _load_remembered
  unfoldable pub load_remembered : JsonFile → String × Option String
  unfolding load_fields
  load_remembered missing = fallback
  load_remembered unreadable = fallback
  load_remembered (holds (obj fields)) = load_fields fields
  load_remembered (holds _) = fallback

  unfoldable pub start_with : String × Option String → Engine → Engine
  start_with (mode, last_flow) e =
      let e' = record e {
        dispatcher = bind_mode mode e.dispatcher;
        mode = mode;
        last_flow = last_flow;
      } in
      record (set_runtime_ok "ok" (note_trigger "startup" e')) { startup_pending = true }

  -- The remembered mode, or the fallback where the dispatcher has modes and this is none of them.
  unfoldable pub checked : List String → String × Option String → String × Option String
  unfolding accepts
  checked valid loaded = if accepts valid loaded.0 then loaded else fallback

  unfoldable pub start : JsonFile → Engine → Engine
  unfolding load_remembered start_with checked valid_modes
  start file e = start_with (checked (valid_modes e.dispatcher) (load_remembered file)) e

-- A device as the start-up check finds it: whether its first reading came, and what it is.
pub record Reading : Type 0 where
  pub received : Bool
  pub is_active : Bool

-- `none` where it is not known.
abbrev pub known : Option Reading → Option Bool
known none = some false
known (some r) = if r.received then some r.is_active else none

-- The mode that the room asks for, if it can be told; from the TV's reading and the speaker's.
unfoldable pub wanted_mode : Option Reading → Option Reading → Option String
wanted_mode tv speaker = elim (known speaker) [
  | some true ↦ some "listen"
  | listening ↦ elim (known tv) [
    | some true ↦ some "watch"
    | none ↦ none
    | some false ↦ elim listening [ none ↦ none | some _ ↦ some "power_off" ]
  ]
]

-- The engine in the mode `want`, saved.
abbrev correct_to : String → Engine → Engine
correct_to want e =
    remember
      (record e { dispatcher = bind_mode want e.dispatcher; mode = want; last_flow = some want })

-- _correct_startup_mode, once its waits are over.
unfoldable pub correct_startup_mode : Option Reading → Option Reading → Engine → Engine
unfolding wanted_mode valid_modes accepts
correct_startup_mode tv speaker e =
    let done = record e { startup_pending = false } in
    if e.acted || e.flow_running then done else elim (wanted_mode tv speaker) [
      | none ↦ done
      | some want ↦
          if want == e.mode || not (accepts (valid_modes e.dispatcher) want)
          then done
          else correct_to want done
    ]

-- _commit_mode_internal, on a name that is not empty; the text is the exception's.
pub data Committed : Type 0 where
  committed : Engine → Committed
  raises : String → Committed

unfoldable pub commit_mode_internal : String → Engine → Committed
unfolding valid_modes accepts strip is_empty
commit_mode_internal name e =
    let name = strip name in
    if is_empty name
    then raises "mode name required"
    else if not (is_some e.dispatcher)
    then raises "dispatcher unavailable"
    else if accepts (valid_modes e.dispatcher) name
    then committed (record e { dispatcher = bind_mode name e.dispatcher; mode = name })
    else raises (str_append "invalid_mode:" name)

-- What set_mode does with a name that passes.
abbrev change_mode : String → String → Engine → Engine
change_mode name trigger e =
    let e' = note_trigger trigger (record e { dispatcher = bind_mode name e.dispatcher }) in
    set_runtime_ok "ok" (remember (record e' { mode = name; acted = true }))

-- set_mode; the flag says that the caller is the task of the flow that runs.
unfoldable pub set_mode : String → String → Bool → Engine → Called
unfolding valid_modes accepts set_runtime_error strip is_empty
set_mode name trigger from_flow e =
    let name = strip name in
    if is_empty name
    then record {
      engine = set_runtime_error "mode_name_required" "invalid" e;
      reply = refused "mode name required";
    }
    else if not (is_some e.dispatcher)
    then record {
      engine = set_runtime_error "dispatcher_unavailable" "failed" e;
      reply = refused "dispatcher unavailable";
    }
    else if e.flow_running && not from_flow
    then record {
      engine = record e { last_result = some "busy" };
      reply = ignored "sequence_running";
    }
    else if not (accepts (valid_modes e.dispatcher) name)
    then record {
      engine = set_runtime_error "invalid_mode" "invalid" e;
      reply = refused "invalid_mode";
    }
    else record { engine = change_mode name trigger e; reply = mode_set name }
