-- ===== src/Callback/Dispatch.antt =====
-- The dispatching half of src/callback.c: the `Lua_...` functions and `callback_flush`. What the other
-- threads and the scripts do meanwhile is a parameter, one `Turn` for each event taken from the queue.
-- A script's function that calls jack.sleep (src/main.c) runs callback_flush again; what that does to
-- the queue is part of the turn, the functions that it calls are not recorded.
pub mod Delivery
pub mod Arrivals
pub mod Loop
use Prim.Native.String.{String}
use luajack.Prelude.{
  ℕ, zero, suc, ◌+◌, Bool, true, false, Option, none, some, List, [], ◌∷◌, ◌++◌, ltb, ◌==◌,
  if◌then◌else◌,
}
use luajack.Objects.{Cud}
use luajack.Events.Api.{Simpleq, Pipe}
use luajack.Events.{
  Evt, EvtType, unset, ct_sample_rate, ct_xrun, ct_graph_order, ct_freewheel,
  ct_client_registration, ct_port_registration, ct_port_rename, ct_port_connect, ct_shutdown,
  ct_latency, ct_session, Block, evt_free, evt_insert, evt_remove, evt_count, EvtQueue,
}

-- A value pushed on the Lua stack. A NULL string is pushed as nil; the status of a shutdown and the
-- fields of a session event are kept as what they are computed from.
pub data LuaArg : Type 0 where
  integer : ℕ → LuaArg
  text : String → LuaArg
  bytes : List ℕ → LuaArg
  nil : LuaArg
  status : ℕ → LuaArg
  session_type session_dir session_uuid : Option ℕ → LuaArg

abbrev pub string_arg : Option (List ℕ) → LuaArg
string_arg none = nil
string_arg (some s) = bytes s

-- `evt->op ? a : b`
abbrev pub choose : ℕ → String → String → LuaArg
choose op a b = if op == 0 then text b else text a

-- A call of a script's function: whose reference is fetched from the registry, and the arguments.
pub record LuaCall : Type 0 where
  pub callback : EvtType
  pub args : List LuaArg

-- latency_pushmode: JackCaptureLatency is 0 and JackPlaybackLatency 1; others are an error.
abbrev mode_arg : ℕ → Option LuaArg
mode_arg zero = some (text "capture")
mode_arg (suc zero) = some (text "playback")
mode_arg (suc (suc n)) = none

abbrev call_of : EvtType → Evt → List LuaArg → LuaCall
call_of callback evt args = record { callback = callback; args = integer evt.client_key ∷ args }

abbrev latency_call : Evt → Option LuaArg → Option LuaCall
latency_call evt none = none
latency_call evt (some mode) = some (call_of ct_latency evt (mode ∷ []))

-- The call that `Lua_...` makes for an event of each type; `none` where pushing the arguments raises
-- an error. Lua_Session fetches the reference of the Latency callback.
unfoldable pub call_args : EvtType → Evt → Option LuaCall
call_args unset evt = none
call_args ct_sample_rate evt = some (call_of ct_sample_rate evt (integer evt.nframes ∷ []))
call_args ct_xrun evt = some (call_of ct_xrun evt [])
call_args ct_graph_order evt = some (call_of ct_graph_order evt [])
call_args ct_freewheel evt =
    some (call_of ct_freewheel evt (choose evt.op "starting" "stopping" ∷ []))
call_args ct_client_registration evt = some (
    call_of ct_client_registration evt
      (string_arg evt.arg1 ∷ choose evt.op "registered" "unregistered" ∷ []))
call_args ct_port_registration evt = some (
    call_of ct_port_registration evt
      (string_arg evt.arg1 ∷ choose evt.op "registered" "unregistered" ∷ []))
call_args ct_port_rename evt =
    some (call_of ct_port_rename evt (string_arg evt.arg1 ∷ string_arg evt.arg2 ∷ []))
call_args ct_port_connect evt = some (
    call_of ct_port_connect evt
      (string_arg evt.arg1 ∷ string_arg evt.arg2 ∷ choose evt.op "connected" "disconnected" ∷ []))
call_args ct_shutdown evt =
    some (call_of ct_shutdown evt (status evt.code ∷ string_arg evt.arg1 ∷ []))
call_args ct_latency evt = latency_call evt (mode_arg evt.mode)
call_args ct_session evt = some (
    call_of ct_latency evt (
      session_type evt.session_event
      ∷ session_dir evt.session_event
      ∷ session_uuid evt.session_event
      ∷ []))

module _ (s : Simpleq Evt) (pipe : Pipe) where
  -- What happens to the queue while one event is dispatched: another thread inserts an event, or a
  -- callback_flush that the script's function runs takes one, dispatches and frees it.
  pub data Meanwhile : Type 0 where
    arrives : Evt → Meanwhile
    flushes : Meanwhile

  -- What is found while one event is dispatched: the client that cud_search finds, whether the
  -- process is exiting, whether the registry holds a function, whether lua_pcall returns LUA_OK,
  -- whether what a session callback returns is accepted, and what happens to the queue.
  pub record Turn : Type 0 where
    pub client : Option Cud
    pub exiting : Bool
    pub is_function : Bool
    pub call_ok : Bool
    pub reply_ok : Bool
    pub meanwhile : List Meanwhile

  -- `calls` are the functions called, latest first.
  pub record Flush : Type 0 where
    pub queue : EvtQueue s pipe
    pub freed : List Block
    pub calls : List LuaCall

  -- A Lua error leaves the loop.
  pub data Outcome : Type 0 where
    returned : Flush → Outcome
    raised : Flush → Outcome

  abbrev free_evt : Evt → Flush → Flush
  free_evt evt st = record st { freed = evt_free evt st.freed }

  -- The arguments are pushed and the function called; EXEC frees the event only on an error.
  abbrev exec : Turn → Evt → Option LuaCall → Flush → Outcome
  exec turn evt none st = raised st
  exec turn evt (some call) st =
      if turn.call_ok
      then returned (record st { calls = call ∷ st.calls })
      else raised (record (free_evt evt st) { calls = call ∷ st.calls })

  -- What follows the call: for a session event, the reading of its results.
  abbrev reply : EvtType → Turn → Outcome → Outcome
  reply ct_session turn (returned st) = if turn.reply_ok then returned st else raised st
  reply type turn out = out

  -- The `Lua_...` function of the event's type.
  pub lua_function : EvtType → Turn → Evt → Flush → Outcome
  lua_function type turn evt st =
      if turn.exiting
      then returned (free_evt evt st)
      else if turn.is_function
      then reply type turn (exec turn evt (call_args type evt) st)
      else raised (free_evt evt st)

  abbrev free_after : Evt → Outcome → Outcome
  free_after evt (returned st) = returned (free_evt evt st)
  free_after evt (raised st) = raised st

  -- The switch, with the evt_free that follows it.
  abbrev switch : EvtType → Turn → Evt → Flush → Outcome
  switch unset turn evt st = raised (free_evt evt st)
  switch type turn evt st = free_after evt (lua_function type turn evt st)

  abbrev is_valid : Option Cud → Bool
  is_valid none = false
  is_valid (some cud) = cud.marks.valid

  -- The body of the loop, for an event just removed.
  pub dispatch : Turn → Evt → Flush → Outcome
  dispatch turn evt st =
      if is_valid turn.client then switch evt.type turn evt st else returned (free_evt evt st)

  abbrev take_one : Option Evt × EvtQueue s pipe → Flush → Flush
  take_one (none, q) st = record st { queue = q }
  take_one (some evt, q) st = free_evt evt (record st { queue = q })

  pub happen : List Meanwhile → Flush → Flush
  happen [] st = st
  happen (arrives e ∷ ms) st = happen ms (record st { queue = evt_insert s pipe e st.queue })
  happen (flushes ∷ ms) st = happen ms (take_one (evt_remove s pipe st.queue) st)

  abbrev go_on : (Flush → Outcome) → List Meanwhile → Outcome → Outcome
  go_on rest ms (returned st) = rest (happen ms st)
  go_on rest ms (raised st) = raised (happen ms st)

  abbrev next_event : (Flush → Outcome) → Turn → Option Evt × EvtQueue s pipe → Flush → Outcome
  next_event rest turn (none, q) st = returned st
  next_event rest turn (some evt, q) st =
      go_on rest turn.meanwhile (dispatch turn evt (record st { queue = q }))

  -- `while(n > 0 && (evt = evt_remove()) != NULL)`, from the turn `i` on.
  pub flush_loop : ℕ → (ℕ → Turn) → ℕ → Flush → Outcome
  flush_loop zero turn i st = returned st
  flush_loop (suc n) turn i st =
      next_event (flush_loop n turn (suc i)) (turn i) (evt_remove s pipe st.queue) st

  -- `none`: called in another thread, it only registers an error. When the process is exiting it does
  -- nothing.
  pub callback_flush : Bool → Bool → (ℕ → Turn) → Flush → Option Outcome
  callback_flush main exiting turn st =
      if main
      then (if exiting
          then some (returned st)
          else some (flush_loop (evt_count s pipe st.queue) turn 0 st))
      else none

  abbrev pub state_of : Outcome → Flush
  state_of (returned st) = st
  state_of (raised st) = st
