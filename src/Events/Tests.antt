-- ===== src/Events/Tests.antt =====
-- Tests of the event queue of src/evt.c, over lists and a pipe of three bytes, and its theorems at
-- concrete inputs.
use luajack.Prelude.{zero, suc, ℕ, ◌≡◌, refl, none, some, [], ◌∷◌, arith}
use luajack.Events.{
  Evt, ct_xrun, ct_session, evt_block, session_block, string_block, EvtQueue, evt_remove,
  remove_nolock, evt_free_all,
}
use luajack.Events.Model.{list_queue, list_queue-IsFifo, small_pipe, small_pipe-IsPipe}
use luajack.Events.Runs.{HasRoom, insert, remove, uses, uses-IsValid}
use luajack.Events.Fifo.{events, IsValid, free_all_lem}

abbrev event : ℕ → Evt
event a = record {
  addr = a;
  client_key = 1;
  type = ct_xrun;
  nframes = 0;
  op = 0;
  code = 0;
  mode = 0;
  session_event = none;
  arg1 = none;
  arg2 = none;
}

abbrev two_events : EvtQueue list_queue small_pipe
two_events = record { head = event 10 ∷ event 20 ∷ []; counter = 2; evtpipe = 2 }

two_events-IsValid : IsValid list_queue small_pipe list_queue-IsFifo small_pipe-IsPipe two_events
two_events-IsValid = record { counted = refl; in_step = refl }

removed_first : (evt_remove list_queue small_pipe two_events).0 ≡ some (event 10)
unfolding evt_remove remove_nolock
removed_first = refl

three_bytes-HasRoom : HasRoom list_queue small_pipe list_queue-IsFifo small_pipe-IsPipe 3
three_bytes-HasRoom zero lt = refl
three_bytes-HasRoom (suc zero) lt = refl
three_bytes-HasRoom (suc (suc zero)) lt = refl
three_bytes-HasRoom (suc (suc (suc n))) lt = absurd (omega arith)

abbrev one_event : EvtQueue list_queue small_pipe
one_event = record { head = event 10 ∷ []; counter = 1; evtpipe = 1 }

uses-IsValid_example :
    IsValid list_queue small_pipe list_queue-IsFifo small_pipe-IsPipe
      (uses list_queue small_pipe (insert (event 30) ∷ remove ∷ []) one_event)
uses-IsValid_example =
    uses-IsValid list_queue small_pipe list_queue-IsFifo small_pipe-IsPipe 3
      (insert (event 30) ∷ remove ∷ []) one_event three_bytes-HasRoom (omega arith) (omega arith)
      (record { counted = refl; in_step = refl })

-- An event with two strings and a session event.
abbrev full_event : Evt
full_event = record {
  addr = 40;
  client_key = 1;
  type = ct_session;
  nframes = 0;
  op = 0;
  code = 0;
  mode = 0;
  session_event = some 41;
  arg1 = some (97 ∷ []);
  arg2 = some (98 ∷ []);
}

abbrev mixed_events : EvtQueue list_queue small_pipe
mixed_events = record { head = full_event ∷ event 20 ∷ []; counter = 2; evtpipe = 2 }

free_all_lem_example :
    (q' : EvtQueue list_queue small_pipe) × (evt_free_all list_queue small_pipe 3 mixed_events []
      ≡ some (
        q',
        evt_block 20
            ∷ evt_block 40
            ∷ session_block 41
            ∷ string_block (98 ∷ [])
            ∷ string_block (97 ∷ [])
            ∷ [],
      ))
    × (events list_queue small_pipe list_queue-IsFifo small_pipe-IsPipe q' ≡ [])
free_all_lem_example =
    free_all_lem list_queue small_pipe list_queue-IsFifo small_pipe-IsPipe 3 mixed_events []
      (omega arith)
