-- ===== src/Callback/Told.antt =====
-- What a script is told of a call of JACK, once the event it queued is dispatched (src/callback.c).
use luajack.Prelude.{
  ℕ, zero, suc, ◌<◌, ◌≡◌, refl, ap, ◌∙◌, true, some, List, [], ◌∷◌, length, arith, if◌then◌else◌,
  take_all, ◌==◌, lt→ltb,
}
use luajack.Objects.{Cud}
use luajack.Events.Api.{Simpleq, Pipe}
use luajack.Events.{Evt, ct_freewheel, evt_insert}
use luajack.Callback.{Sys, Error, ref_of, max_arg_len, name_or_unknown, on_freewheel}
use luajack.Callback.Dispatch.{LuaArg, integer, text, bytes, status, call_args, choose}
use luajack.Callback.Queueing.{
  JackCall, sample_rate, xrun, graph_order, freewheel, client_registration, port_registration,
  port_rename, port_connect, shutdown, latency, session, type_of, event_of, errors_of, jack_call,
  jack_call-Queued,
}

-- What a script should hear of a call: the arguments behind the client's reference. Names of 1024
-- bytes or more, a freewheel call and a session call are apart.
abbrev pub IsTold : JackCall → Type 0
IsTold (freewheel n) = ⊥
IsTold (session e) = ⊥
IsTold (client_registration n r) = length n < max_arg_len
IsTold (port_registration n r) = length (name_or_unknown n) < max_arg_len
IsTold (port_rename o n) = (length o < max_arg_len) × (length n < max_arg_len)
IsTold (port_connect x y c) =
    (length (name_or_unknown x) < max_arg_len) × (length (name_or_unknown y) < max_arg_len)
IsTold (shutdown c r) = length r < max_arg_len
IsTold (latency m) = m < 2
IsTold call = Unit {0}

abbrev pub told : JackCall → List LuaArg
told (sample_rate n) = integer n ∷ []
told (client_registration n r) = bytes n ∷ choose r "registered" "unregistered" ∷ []
told (port_registration n r) = bytes (name_or_unknown n) ∷ choose r "registered" "unregistered" ∷ []
told (port_rename o n) = bytes o ∷ bytes n ∷ []
told (port_connect x y c) =
    bytes (name_or_unknown x) ∷ bytes (name_or_unknown y) ∷ choose c "connected" "disconnected" ∷ []
told (shutdown c r) = status c ∷ bytes r ∷ []
told (latency m) = text (if m == 0 then "capture" else "playback") ∷ []
told call = []

call_args-event_of :
    (a key : ℕ) (call : JackCall)
    → IsTold call
    → call_args (type_of call) (event_of a key call)
      ≡ some (record { callback = type_of call; args = integer key ∷ told call })
unfolding call_args
call_args-event_of a key (sample_rate n) t = refl
call_args-event_of a key xrun t = refl
call_args-event_of a key graph_order t = refl
call_args-event_of a key (freewheel n) t = elim t [ ]
call_args-event_of a key (session e) t = elim t [ ]
call_args-event_of a key (client_registration n r) t =
    rw (take_all max_arg_len n (omega arith)) refl
call_args-event_of a key (port_registration n r) t =
    rw (take_all max_arg_len (name_or_unknown n) (omega arith)) refl
call_args-event_of a key (port_rename o n) t =
    rw (take_all max_arg_len o (omega arith), take_all max_arg_len n (omega arith)) refl
call_args-event_of a key (port_connect x y c) t =
    rw
      (
        take_all max_arg_len (name_or_unknown x) (omega arith),
        take_all max_arg_len (name_or_unknown y) (omega arith),
      )
      refl
call_args-event_of a key (shutdown c r) t = rw (take_all max_arg_len r (omega arith)) refl
call_args-event_of a key (latency zero) t = refl
call_args-event_of a key (latency (suc zero)) t = refl
call_args-event_of a key (latency (suc (suc m))) t = absurd (omega arith)

IsTold-errors :
    (call : JackCall) (errors : List Error) → IsTold call → errors_of call errors ≡ errors
IsTold-errors (sample_rate n) errors t = refl
IsTold-errors xrun errors t = refl
IsTold-errors graph_order errors t = refl
IsTold-errors (freewheel n) errors t = refl
IsTold-errors (session e) errors t = refl
IsTold-errors (client_registration n r) errors t = rw (lt→ltb (length n) max_arg_len t) refl
IsTold-errors (port_registration n r) errors t =
    rw (lt→ltb (length (name_or_unknown n)) max_arg_len t) refl
IsTold-errors (port_rename o n) errors t =
    rw (lt→ltb (length o) max_arg_len t.0, lt→ltb (length n) max_arg_len t.1) refl
IsTold-errors (port_connect x y c) errors t =
    rw
      (
        lt→ltb (length (name_or_unknown x)) max_arg_len t.0,
        lt→ltb (length (name_or_unknown y)) max_arg_len t.1,
      )
      refl
IsTold-errors (shutdown c r) errors t = rw (lt→ltb (length r) max_arg_len t) refl
IsTold-errors (latency m) errors t = refl

type-event_of : (a key : ℕ) (call : JackCall) → (event_of a key call).type ≡ type_of call
type-event_of a key (sample_rate n) = refl
type-event_of a key xrun = refl
type-event_of a key graph_order = refl
type-event_of a key (freewheel n) = refl
type-event_of a key (session e) = refl
type-event_of a key (client_registration n r) = refl
type-event_of a key (port_registration n r) = refl
type-event_of a key (port_rename o n) = refl
type-event_of a key (port_connect x y c) = refl
type-event_of a key (shutdown c r) = refl
type-event_of a key (latency m) = refl

module _ (s : Simpleq Evt) (pipe : Pipe) where
  -- For an open client with a callback of the kind, and where memory is there, a call of JACK queues
  -- an event, with no error registered, that makes the script's function for this kind of callback
  -- hear of the client and of the arguments of the call. Apart are freewheel and session calls, names
  -- of 1024 bytes or more, and latency modes other than the two of JACK.
  pub jack_call-told :
      (a p1 p2 ref : ℕ) (call : JackCall) (cud : Cud) (sys : Sys s pipe)
      → cud.marks.valid ≡ true
      → ref_of (type_of call) cud.callbacks ≡ some ref
      → IsTold call
      → (e : Evt) × (jack_call s pipe (some a) (some p1) (some p2) call cud sys
          ≡ some (record sys { queue = evt_insert s pipe e sys.queue }))
        × (call_args e.type e
            ≡ some (record { callback = type_of call; args = integer cud.key ∷ told call }))
  jack_call-told a p1 p2 ref call cud sys v r t = (
    event_of a cud.key call,
    jack_call-Queued s pipe a p1 p2 ref call cud sys v r
        ∙ ap
            (λ z. some (record {
              queue = evt_insert s pipe (event_of a cud.key call) sys.queue;
              errors = z;
            }))
            (IsTold-errors call sys.errors t),
    ap (λ z. call_args z (event_of a cud.key call)) (type-event_of a cud.key call)
        ∙ call_args-event_of a cud.key call t,
  )

  -- A freewheel call makes the script hear "stopping", whether freewheel mode starts or stops: the
  -- flag is stored in the field `mode` of the event, and read from `op`.
  pub freewheel_stopping :
      (a ref starting : ℕ) (cud : Cud) (sys : Sys s pipe)
      → cud.marks.valid ≡ true
      → cud.callbacks.freewheel ≡ some ref
      → (e : Evt) × (on_freewheel s pipe (some a) starting cud sys
          ≡ some (record sys { queue = evt_insert s pipe e sys.queue }))
        × (call_args e.type e
            ≡ some
                (record { callback = ct_freewheel; args = integer cud.key ∷ text "stopping" ∷ [] }))
  unfolding call_args
  freewheel_stopping a ref starting cud sys v r = (
    event_of a cud.key (freewheel starting),
    jack_call-Queued s pipe a a a ref (freewheel starting) cud sys v r,
    refl,
  )
