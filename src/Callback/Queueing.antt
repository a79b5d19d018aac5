-- ===== src/Callback/Queueing.antt =====
-- What the calls of JACK put into the event queue (src/callback.c).
use luajack.Prelude.{
  ℕ, ◌≡◌, refl, ◌⊎◌, inl, inr, true, false, Option, none, some, List, take, arith,
}
use luajack.Objects.{Cud}
use luajack.Events.Api.{Simpleq, Pipe}
use luajack.Events.{
  Evt, EvtType, ct_sample_rate, ct_xrun, ct_graph_order, ct_freewheel, ct_client_registration,
  evt_new, ct_port_registration, ct_port_rename, ct_port_connect, ct_shutdown, ct_latency,
  ct_session, evt_insert,
}
use luajack.Callback.{
  Sys, Error, begin_event, end_event, copy_arg, ref_of, max_arg_len, note_long, name_or_unknown,
  on_sample_rate, on_xrun, on_graph_order, on_freewheel, on_client_registration,
  on_port_registration, on_port_rename, on_port_connect, on_shutdown, on_latency, on_session,
}

-- A call that JACK makes of one of the functions registered with it, with its arguments.
pub data JackCall : Type 0 where
  sample_rate : ℕ → JackCall
  xrun graph_order : JackCall
  freewheel : ℕ → JackCall
  client_registration : List ℕ → ℕ → JackCall
  port_registration : Option (List ℕ) → ℕ → JackCall
  port_rename : List ℕ → List ℕ → JackCall
  port_connect : Option (List ℕ) → Option (List ℕ) → ℕ → JackCall
  shutdown : ℕ → List ℕ → JackCall
  latency : ℕ → JackCall
  session : ℕ → JackCall

abbrev pub type_of : JackCall → EvtType
type_of (sample_rate n) = ct_sample_rate
type_of xrun = ct_xrun
type_of graph_order = ct_graph_order
type_of (freewheel n) = ct_freewheel
type_of (client_registration n r) = ct_client_registration
type_of (port_registration n r) = ct_port_registration
type_of (port_rename o n) = ct_port_rename
type_of (port_connect a b c) = ct_port_connect
type_of (shutdown c r) = ct_shutdown
type_of (latency m) = ct_latency
type_of (session e) = ct_session

-- The event that is meant to be queued, for a client's key and an address.
abbrev blank : ℕ → ℕ → EvtType → Evt
blank addr key type = record {
  addr = addr;
  client_key = key;
  type = type;
  nframes = 0;
  op = 0;
  code = 0;
  mode = 0;
  session_event = none;
  arg1 = none;
  arg2 = none;
}

abbrev cut : List ℕ → Option (List ℕ)
cut name = some (take max_arg_len name)

abbrev pub event_of : ℕ → ℕ → JackCall → Evt
event_of a k (sample_rate n) = record (blank a k ct_sample_rate) { nframes = n }
event_of a k xrun = blank a k ct_xrun
event_of a k graph_order = blank a k ct_graph_order
event_of a k (freewheel n) = record (blank a k ct_freewheel) { mode = n }
event_of a k (client_registration n r) = record (blank a k ct_client_registration) {
  arg1 = cut n;
  op = r;
}
event_of a k (port_registration n r) = record (blank a k ct_port_registration) {
  arg1 = cut (name_or_unknown n);
  op = r;
}
event_of a k (port_rename o n) = record (blank a k ct_port_rename) { arg1 = cut o; arg2 = cut n }
event_of a k (port_connect x y c) = record (blank a k ct_port_connect) {
  arg1 = cut (name_or_unknown x);
  arg2 = cut (name_or_unknown y);
  op = c;
}
event_of a k (shutdown c r) = record (blank a k ct_shutdown) { code = c; arg1 = cut r }
event_of a k (latency m) = record (blank a k ct_latency) { mode = m }
event_of a k (session e) = record (blank a k ct_session) { session_event = some e }

-- The errors registered: one for each name that reaches the limit.
abbrev pub errors_of : JackCall → List Error → List Error
errors_of (client_registration n r) errors = note_long n errors
errors_of (port_registration n r) errors = note_long (name_or_unknown n) errors
errors_of (port_rename o n) errors = note_long n (note_long o errors)
errors_of (port_connect x y c) errors =
    note_long (name_or_unknown y) (note_long (name_or_unknown x) errors)
errors_of (shutdown c r) errors = note_long r errors
errors_of call errors = errors

module _ (s : Simpleq Evt) (pipe : Pipe) where
  -- `m`, `m1`, `m2`: what the allocator gives for the event and for its strings.
  abbrev pub jack_call :
      Option ℕ → Option ℕ → Option ℕ → JackCall → Cud → Sys s pipe → Option (Sys s pipe)
  jack_call m m1 m2 (sample_rate n) cud sys = (on_sample_rate s pipe m n cud sys).0
  jack_call m m1 m2 xrun cud sys = on_xrun s pipe m cud sys
  jack_call m m1 m2 graph_order cud sys = on_graph_order s pipe m cud sys
  jack_call m m1 m2 (freewheel n) cud sys = on_freewheel s pipe m n cud sys
  jack_call m m1 m2 (client_registration n r) cud sys =
      on_client_registration s pipe m m1 n r cud sys
  jack_call m m1 m2 (port_registration n r) cud sys = on_port_registration s pipe m m1 n r cud sys
  jack_call m m1 m2 (port_rename o n) cud sys = on_port_rename s pipe m m1 m2 o n cud sys
  jack_call m m1 m2 (port_connect x y c) cud sys = on_port_connect s pipe m m1 m2 x y c cud sys
  jack_call m m1 m2 (shutdown c r) cud sys = on_shutdown s pipe m m1 c r cud sys
  jack_call m m1 m2 (latency mode) cud sys = on_latency s pipe m mode cud sys
  jack_call m m1 m2 (session e) cud sys = on_session s pipe m e cud sys

  begin_event_ignored :
      (type : EvtType) (m : Option ℕ) (cud : Cud) (sys : Sys s pipe)
      → (cud.marks.valid ≡ false) ⊎ (ref_of type cud.callbacks ≡ none)
      → begin_event s pipe type m cud sys ≡ (none, sys)
  unfolding begin_event
  begin_event_ignored type m cud sys (inl closed) = ground arith
  begin_event_ignored type m cud sys (inr unset_ref) = ground arith

  begin_event_lem :
      (type : EvtType) (a : ℕ) (cud : Cud) (sys : Sys s pipe) (ref : ℕ)
      → cud.marks.valid ≡ true
      → ref_of type cud.callbacks ≡ some ref
      → begin_event s pipe type (some a) cud sys ≡ (some (blank a cud.key type), sys)
  unfolding begin_event evt_new
  begin_event_lem type a cud sys ref v r = ground (arith)

  -- A call for a client that was closed, or that has no callback of the kind, changes nothing.
  pub jack_call_ignored :
      (m m1 m2 : Option ℕ) (call : JackCall) (cud : Cud) (sys : Sys s pipe)
      → (cud.marks.valid ≡ false) ⊎ (ref_of (type_of call) cud.callbacks ≡ none)
      → jack_call m m1 m2 call cud sys ≡ some sys
  unfolding on_sample_rate on_xrun on_graph_order on_freewheel on_client_registration
      on_port_registration on_port_rename on_port_connect on_shutdown on_latency on_session
  jack_call_ignored m m1 m2 (sample_rate n) cud sys h =
      rw (begin_event_ignored ct_sample_rate m cud sys h) refl
  jack_call_ignored m m1 m2 xrun cud sys h = rw (begin_event_ignored ct_xrun m cud sys h) refl
  jack_call_ignored m m1 m2 graph_order cud sys h =
      rw (begin_event_ignored ct_graph_order m cud sys h) refl
  jack_call_ignored m m1 m2 (freewheel n) cud sys h =
      rw (begin_event_ignored ct_freewheel m cud sys h) refl
  jack_call_ignored m m1 m2 (client_registration n r) cud sys h =
      rw (begin_event_ignored ct_client_registration m cud sys h) refl
  jack_call_ignored m m1 m2 (port_registration n r) cud sys h =
      rw (begin_event_ignored ct_port_registration m cud sys h) refl
  jack_call_ignored m m1 m2 (port_rename o n) cud sys h =
      rw (begin_event_ignored ct_port_rename m cud sys h) refl
  jack_call_ignored m m1 m2 (port_connect x y c) cud sys h =
      rw (begin_event_ignored ct_port_connect m cud sys h) refl
  jack_call_ignored m m1 m2 (shutdown c r) cud sys h =
      rw (begin_event_ignored ct_shutdown m cud sys h) refl
  jack_call_ignored m m1 m2 (latency mode) cud sys h =
      rw (begin_event_ignored ct_latency m cud sys h) refl
  jack_call_ignored m m1 m2 (session e) cud sys h =
      rw (begin_event_ignored ct_session m cud sys h) refl

  -- The queue and the errors after a call that finds its callback registered and gets its memory.
  abbrev pub Queued : ℕ → JackCall → Cud → Sys s pipe → Option (Sys s pipe) → Type 0
  Queued a call cud sys out =
      out
      ≡ some (record {
        queue = evt_insert s pipe (event_of a cud.key call) sys.queue;
        errors = errors_of call sys.errors;
      })

  -- For an open client with a callback of the kind, and where memory is there, a call queues one
  -- event with the client's key, the kind and the arguments (a starting flag of the freewheel call in
  -- the field `mode`), its names cut at 1024 bytes; each name of that length or more is registered as
  -- an error.
  pub jack_call-Queued :
      (a p1 p2 ref : ℕ) (call : JackCall) (cud : Cud) (sys : Sys s pipe)
      → cud.marks.valid ≡ true
      → ref_of (type_of call) cud.callbacks ≡ some ref
      → Queued a call cud sys (jack_call (some a) (some p1) (some p2) call cud sys)
  unfolding on_sample_rate on_xrun on_graph_order on_freewheel on_client_registration
      on_port_registration on_port_rename on_port_connect on_shutdown on_latency on_session
      end_event copy_arg
  jack_call-Queued a p1 p2 ref (sample_rate n) cud sys v r =
      rw (begin_event_lem ct_sample_rate a cud sys ref v r) refl
  jack_call-Queued a p1 p2 ref xrun cud sys v r =
      rw (begin_event_lem ct_xrun a cud sys ref v r) refl
  jack_call-Queued a p1 p2 ref graph_order cud sys v r =
      rw (begin_event_lem ct_graph_order a cud sys ref v r) refl
  jack_call-Queued a p1 p2 ref (freewheel n) cud sys v r =
      rw (begin_event_lem ct_freewheel a cud sys ref v r) refl
  jack_call-Queued a p1 p2 ref (client_registration n g) cud sys v r =
      rw (begin_event_lem ct_client_registration a cud sys ref v r) refl
  jack_call-Queued a p1 p2 ref (port_registration n g) cud sys v r =
      rw (begin_event_lem ct_port_registration a cud sys ref v r) refl
  jack_call-Queued a p1 p2 ref (port_rename o n) cud sys v r =
      rw (begin_event_lem ct_port_rename a cud sys ref v r) refl
  jack_call-Queued a p1 p2 ref (port_connect x y c) cud sys v r =
      rw (begin_event_lem ct_port_connect a cud sys ref v r) refl
  jack_call-Queued a p1 p2 ref (shutdown c n) cud sys v r =
      rw (begin_event_lem ct_shutdown a cud sys ref v r) refl
  jack_call-Queued a p1 p2 ref (latency mode) cud sys v r =
      rw (begin_event_lem ct_latency a cud sys ref v r) refl
  jack_call-Queued a p1 p2 ref (session e) cud sys v r =
      rw (begin_event_lem ct_session a cud sys ref v r) refl
