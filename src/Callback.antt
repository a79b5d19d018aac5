-- ===== src/Callback.antt =====
-- src/callback.c: the functions that JACK calls, which only queue an event, and `callback_flush`,
-- which dispatches the events in the main thread.
mod Tests
pub mod Register
pub mod Queueing
pub mod Told
pub mod Dispatch
use Prim.Native.String.{String}
use luajack.Prelude.{
  ℕ, suc, Bool, true, false, Option, none, some, List, [], ◌∷◌, ◌++◌, length, take, ltb, ◌==◌,
  if◌then◌else◌, ◌||◌,
}
use luajack.Objects.{Cud, Callbacks}
use luajack.Events.Api.{Simpleq, Pipe}
use luajack.Events.{
  Evt, EvtType, unset, ct_sample_rate, ct_xrun, ct_graph_order, ct_freewheel,
  ct_client_registration, ct_port_registration, ct_port_rename, ct_port_connect, ct_shutdown,
  ct_latency, ct_session, evt_new, evt_insert, EvtQueue,
}

-- The field of the client that `cud->cbname` names.
abbrev pub ref_of : EvtType → Callbacks → Option ℕ
ref_of unset c = none
ref_of ct_sample_rate c = c.sample_rate
ref_of ct_xrun c = c.xrun
ref_of ct_graph_order c = c.graph_order
ref_of ct_freewheel c = c.freewheel
ref_of ct_client_registration c = c.client_registration
ref_of ct_port_registration c = c.port_registration
ref_of ct_port_rename c = c.port_rename
ref_of ct_port_connect c = c.port_connect
ref_of ct_shutdown c = c.shutdown
ref_of ct_latency c = c.latency
ref_of ct_session c = c.session

-- The calls of luajack_error().
pub data Error : Type 0 where
  cannot_allocate unexpected_error : Error

abbrev pub max_arg_len : ℕ
max_arg_len = 1024

-- A string that reaches the limit is registered as an error.
abbrev pub note_long : List ℕ → List Error → List Error
note_long src errors = if ltb (length src) max_arg_len then errors else unexpected_error ∷ errors

-- The name that stands for a port that jack_port_by_id does not find.
abbrev unknown_name : List ℕ
unknown_name = 63 ∷ 63 ∷ 63 ∷ []

abbrev pub name_or_unknown : Option (List ℕ) → List ℕ
name_or_unknown none = unknown_name
name_or_unknown (some n) = n

module _ (s : Simpleq Evt) (pipe : Pipe) where
  -- The event queue, and the errors registered, latest first.
  pub record Sys : Type 0 where
    pub queue : EvtQueue s pipe
    pub errors : List Error

  -- BEGIN: `none` if there is nothing more to do.
  pub begin_event : EvtType → Option ℕ → Cud → Sys → Option Evt × Sys
  begin_event type memory cud sys =
      if cud.marks.valid
      then elim (ref_of type cud.callbacks) [
        | none ↦ (none, sys)
        | some ref ↦ elim (evt_new memory) [
          | none ↦ (none, record sys { errors = cannot_allocate ∷ sys.errors })
          | some evt ↦ (some (record evt { client_key = cud.key; type = type }), sys)
        ]
      ]
      else (none, sys)

  -- END
  pub end_event : Evt → Sys → Sys
  end_event evt sys = record sys { queue = evt_insert s pipe evt sys.queue }

  -- Copy: the string, cut at max_arg_len; `none` is the write through the NULL that a failed
  -- allocation gives.
  pub copy_arg : Option ℕ → List ℕ → Sys → Option (List ℕ × Sys)
  copy_arg none src sys = none
  copy_arg (some p) src sys =
      some (take max_arg_len src, record sys { errors = note_long src sys.errors })

  -- The body between BEGIN and END; the result is `none` where the process crashes.
  abbrev queue_event : (Evt → Sys → Option (Evt × Sys)) → Option Evt × Sys → Option Sys
  queue_event body (none, sys) = some sys
  queue_event body (some evt, sys) = elim (body evt sys) [
    | none ↦ none
    | some r ↦ some (end_event r.0 r.1)
  ]

  -- A body that only fills in fields of the event.
  abbrev fill : (Evt → Evt) → Evt → Sys → Option (Evt × Sys)
  fill f evt sys = some (f evt, sys)

  -- A body that copies one string to `arg1`.
  abbrev fill_arg1 : Option ℕ → List ℕ → (Evt → Evt) → Evt → Sys → Option (Evt × Sys)
  fill_arg1 memory name f evt sys = elim (copy_arg memory name sys) [
    | none ↦ none
    | some r ↦ some (f (record evt { arg1 = some r.0 }), r.1)
  ]

  -- A body that copies a string to `arg1` and another to `arg2`.
  abbrev fill_args :
      Option ℕ → Option ℕ → List ℕ → List ℕ → (Evt → Evt) → Evt → Sys → Option (Evt × Sys)
  fill_args m1 m2 name1 name2 f evt sys = elim (copy_arg m1 name1 sys) [
    | none ↦ none
    | some r1 ↦ elim (copy_arg m2 name2 r1.1) [
      | none ↦ none
      | some r2 ↦ some (f (record evt { arg1 = some r1.0; arg2 = some r2.0 }), r2.1)
    ]
  ]

  abbrev sniff : ℕ → Option Evt × Sys → Cud → Cud
  sniff nframes (none, sys) cud = cud
  sniff nframes (some evt, sys) cud = record cud { sample_rate = nframes }

  -- The numbers `m`, `m1`, `m2` are the addresses that the allocator gives, in this order.
  pub on_sample_rate : Option ℕ → ℕ → Cud → Sys → Option Sys × Cud
  on_sample_rate m nframes cud sys =
      let b = begin_event ct_sample_rate m cud sys in
      (queue_event (fill (λ e. record e { nframes = nframes })) b, sniff nframes b cud)

  pub on_xrun : Option ℕ → Cud → Sys → Option Sys
  on_xrun m cud sys = queue_event (fill (λ e. e)) (begin_event ct_xrun m cud sys)

  pub on_graph_order : Option ℕ → Cud → Sys → Option Sys
  on_graph_order m cud sys = queue_event (fill (λ e. e)) (begin_event ct_graph_order m cud sys)

  -- The argument goes to the field `mode`.
  pub on_freewheel : Option ℕ → ℕ → Cud → Sys → Option Sys
  on_freewheel m starting cud sys =
      queue_event (fill (λ e. record e { mode = starting })) (begin_event ct_freewheel m cud sys)

  pub on_client_registration : Option ℕ → Option ℕ → List ℕ → ℕ → Cud → Sys → Option Sys
  on_client_registration m m1 name reg cud sys =
      queue_event (fill_arg1 m1 name (λ e. record e { op = reg }))
        (begin_event ct_client_registration m cud sys)

  -- The names are what jack_port_by_id and jack_port_name find.
  pub on_port_registration : Option ℕ → Option ℕ → Option (List ℕ) → ℕ → Cud → Sys → Option Sys
  on_port_registration m m1 name reg cud sys =
      queue_event (fill_arg1 m1 (name_or_unknown name) (λ e. record e { op = reg }))
        (begin_event ct_port_registration m cud sys)

  pub on_port_rename : Option ℕ → Option ℕ → Option ℕ → List ℕ → List ℕ → Cud → Sys → Option Sys
  on_port_rename m m1 m2 old_name new_name cud sys =
      queue_event (fill_args m1 m2 old_name new_name (λ e. e))
        (begin_event ct_port_rename m cud sys)

  pub on_port_connect :
      Option ℕ
      → Option ℕ
      → Option ℕ
      → Option (List ℕ)
      → Option (List ℕ)
      → ℕ
      → Cud
      → Sys
      → Option Sys
  on_port_connect m m1 m2 name1 name2 connect cud sys =
      queue_event
        (fill_args m1 m2 (name_or_unknown name1) (name_or_unknown name2)
          (λ e. record e { op = connect }))
        (begin_event ct_port_connect m cud sys)

  pub on_shutdown : Option ℕ → Option ℕ → ℕ → List ℕ → Cud → Sys → Option Sys
  on_shutdown m m1 code reason cud sys =
      queue_event (fill_arg1 m1 reason (λ e. record e { code = code }))
        (begin_event ct_shutdown m cud sys)

  pub on_latency : Option ℕ → ℕ → Cud → Sys → Option Sys
  on_latency m mode cud sys =
      queue_event (fill (λ e. record e { mode = mode })) (begin_event ct_latency m cud sys)

  pub on_session : Option ℕ → ℕ → Cud → Sys → Option Sys
  on_session m event cud sys =
      queue_event (fill (λ e. record e { session_event = some event }))
        (begin_event ct_session m cud sys)
