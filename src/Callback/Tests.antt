-- ===== src/Callback/Tests.antt =====
-- Tests of src/callback.c over the list queue and the small pipe, and its theorems at concrete inputs.
use luajack.Prelude.{
  some_inj, if◌then◌else◌, ◌==◌, eq→==, ◌∙◌, sym, ℕ, ◌≤◌, ◌+◌, ◌≡◌, refl, true, false, none, some,
  [], ◌∷◌, drop, arith,
}
use luajack.Objects.{Cud, Callbacks}
use luajack.Events.{Evt, ct_xrun, ct_client_registration, evt_insert, evt_free}
use luajack.Events.Model.{list_queue, list_queue-IsFifo, small_pipe, small_pipe-IsPipe}
use luajack.Events.Fifo.{IsValid, free_each}
use luajack.Callback.{Sys}
use luajack.Callback.Dispatch.{
  integer, text, bytes, LuaCall, call_args, arrives, flushes, Turn, Flush, Outcome, returned,
  state_of, dispatch, callback_flush,
}
use luajack.Callback.Dispatch.Delivery.{dispatch_frees_once, IsQuiet}
use luajack.Callback.Dispatch.Loop.{arrivals_of, flushes_of, flush_takes, flush_delivers}
use luajack.Callback.Queueing.{JackCall, client_registration, jack_call, jack_call-Queued, Queued}
use luajack.Callback.Register.{
  Kind, session, field, number, same_kind, client_slots, callback_unregister, close_keeps_session,
}
use luajack.Registry.{Registered}
use luajack.Registry.Table.{IsLinked, function_of}
use luajack.Registry.Model.{value_at, value_list, value_list-IsRegistry}
use luajack.Callback.Told.{jack_call-told}

abbrev no_callbacks : Callbacks
no_callbacks = record {
  sample_rate = none;
  xrun = none;
  graph_order = none;
  freewheel = none;
  client_registration = none;
  port_registration = none;
  port_rename = none;
  port_connect = none;
  shutdown = none;
  latency = none;
  session = none;
}

abbrev registered_callbacks : Callbacks
registered_callbacks = record no_callbacks {
  xrun = some 4;
  freewheel = some 5;
  client_registration = some 6;
}

abbrev client : Cud
client = record {
  key = 77;
  marks = record { valid = true; process_callback = false; profile = false };
  sample_rate = 48000;
  buffer_size = 256;
  nframes = 0;
  callbacks = registered_callbacks;
}

abbrev idle : Sys list_queue small_pipe
idle = record { queue = record { head = []; counter = 0; evtpipe = 0 }; errors = [] }

-- "abc" registers.
abbrev new_client : JackCall
new_client = client_registration (97 ∷ 98 ∷ 99 ∷ []) 1

jack_call-Queued_example :
    Queued list_queue small_pipe 10 new_client client idle
      (jack_call list_queue small_pipe (some 10) (some 11) (some 12) new_client client idle)
jack_call-Queued_example =
    jack_call-Queued list_queue small_pipe 10 11 12 6 new_client client idle refl refl

jack_call-told_example :
    (e : Evt) × (jack_call list_queue small_pipe
        (some 10)
        (some 11)
        (some 12)
        new_client
        client
        idle
      ≡ some (record idle { queue = evt_insert list_queue small_pipe e idle.queue }))
    × (call_args e.type e
        ≡ some (record {
          callback = ct_client_registration;
          args = integer 77 ∷ bytes (97 ∷ 98 ∷ 99 ∷ []) ∷ text "registered" ∷ [];
        }))
jack_call-told_example =
    jack_call-told list_queue small_pipe 10 11 12 6 new_client client idle refl refl (omega arith)

abbrev xrun_event : Evt
xrun_event = record {
  addr = 10;
  client_key = 77;
  type = ct_xrun;
  nframes = 0;
  op = 0;
  code = 0;
  mode = 0;
  session_event = none;
  arg1 = none;
  arg2 = none;
}

abbrev xrun_call : LuaCall
xrun_call = record { callback = ct_xrun; args = integer 77 ∷ [] }

-- One event waits.
abbrev waiting_flush : Flush list_queue small_pipe
waiting_flush = record {
  queue = record { head = xrun_event ∷ []; counter = 1; evtpipe = 1 };
  freed = [];
  calls = [];
}

abbrev quiet_turn : Turn list_queue small_pipe
quiet_turn = record {
  client = some client;
  exiting = false;
  is_function = true;
  call_ok = true;
  reply_ok = true;
  meanwhile = arrives xrun_event ∷ [];
}

quiet_turn-IsQuiet : IsQuiet list_queue small_pipe quiet_turn
quiet_turn-IsQuiet = record {
  valid = refl;
  live = refl;
  function = refl;
  call = refl;
  reply = refl;
  alone = tt;
}

waiting-IsValid :
    IsValid list_queue small_pipe list_queue-IsFifo small_pipe-IsPipe waiting_flush.queue
waiting-IsValid = record { counted = refl; in_step = refl }

xrun_args : call_args ct_xrun xrun_event ≡ some xrun_call
unfolding call_args
xrun_args = refl

dispatch_frees_once_example :
    (state_of list_queue small_pipe (
      dispatch list_queue small_pipe
        (record quiet_turn { call_ok = false })
        xrun_event
        waiting_flush)).freed
    ≡ evt_free xrun_event []
dispatch_frees_once_example =
    dispatch_frees_once list_queue small_pipe (record quiet_turn { call_ok = false }) xrun_event
      waiting_flush xrun_call refl refl xrun_args

-- The script's function sleeps, and the event that arrives is taken by the callback_flush within.
abbrev sleeping_turn : Turn list_queue small_pipe
sleeping_turn = record quiet_turn { meanwhile = arrives xrun_event ∷ flushes ∷ [] }

flush_takes_example :
    (out : Outcome list_queue small_pipe) × (callback_flush list_queue small_pipe true false
        (λ i. sleeping_turn)
        waiting_flush
      ≡ some out)
    × ((m : ℕ) × (k : ℕ) × (m ≤ 1)
        × (m ≤ k)
        × (k ≤ m + flushes_of list_queue small_pipe m (λ i. sleeping_turn) 0)
        × ((state_of list_queue small_pipe out).queue.head
            ≡ drop k (xrun_event ∷ arrivals_of list_queue small_pipe m (λ i. sleeping_turn) 0)))
flush_takes_example =
    flush_takes list_queue small_pipe list_queue-IsFifo small_pipe-IsPipe (λ i. sleeping_turn)
      waiting_flush waiting-IsValid (omega arith)

flush_delivers_example :
    (st' : Flush list_queue small_pipe) × (callback_flush list_queue small_pipe true false
        (λ i. quiet_turn)
        waiting_flush
      ≡ some (returned st'))
    × (st'.queue.head ≡ xrun_event ∷ [])
    × (st'.freed ≡ free_each (xrun_event ∷ []) [])
    × (st'.calls ≡ xrun_call ∷ [])
flush_delivers_example =
    flush_delivers list_queue small_pipe list_queue-IsFifo small_pipe-IsPipe (λ i. quiet_turn)
      (xrun_call ∷ []) waiting_flush waiting-IsValid (omega arith) (λ i. quiet_turn-IsQuiet)
      (xrun_args, tt)

-- The client's callbacks with references into a registry of numbers; a session callback among them.
abbrev with_session : Registered value_list client_slots
with_session = record {
  registry = none ∷ some 40 ∷ some 41 ∷ [];
  client = record no_callbacks { xrun = some 1; session = some 2 };
}

held_is_live :
    (k : Kind) (i : ℕ)
    → field k with_session.client ≡ some i
    → (f : ℕ) × (value_at with_session.registry i ≡ some f)
held_is_live Kind.shutdown i e = cc
held_is_live Kind.freewheel i e = cc
held_is_live Kind.sample_rate i e = cc
held_is_live Kind.client_registration i e = cc
held_is_live Kind.port_registration i e = cc
held_is_live Kind.port_rename i e = cc
held_is_live Kind.port_connect i e = cc
held_is_live Kind.graph_order i e = cc
held_is_live Kind.xrun i e = (40, rw (← some_inj 1 i e) refl)
held_is_live Kind.latency i e = cc
held_is_live Kind.session i e = (41, rw (← some_inj 2 i e) refl)

-- The only references are 1 and 2.
held_by :
    (k : Kind) (i : ℕ)
    → field k with_session.client ≡ some i
    → number k ≡ (if i == 1 then 8 else 10)
held_by Kind.shutdown i e = cc
held_by Kind.freewheel i e = cc
held_by Kind.sample_rate i e = cc
held_by Kind.client_registration i e = cc
held_by Kind.port_registration i e = cc
held_by Kind.port_rename i e = cc
held_by Kind.port_connect i e = cc
held_by Kind.graph_order i e = cc
held_by Kind.xrun i e = rw (← some_inj 1 i e) refl
held_by Kind.latency i e = cc
held_by Kind.session i e = rw (← some_inj 2 i e) refl

held_apart :
    (j k : Kind) (i : ℕ)
    → field j with_session.client ≡ some i
    → field k with_session.client ≡ some i
    → same_kind j k ≡ true
held_apart j k i e f = eq→== _ _ (held_by j i e ∙ sym (held_by k i f))

with_session-IsLinked : IsLinked value_list client_slots with_session
with_session-IsLinked = record { live = held_is_live; apart = held_apart }

close_keeps_session_example :
    function_of value_list client_slots session (callback_unregister value_list with_session)
    ≡ some 41
close_keeps_session_example =
    close_keeps_session value_list value_list-IsRegistry with_session session with_session-IsLinked
