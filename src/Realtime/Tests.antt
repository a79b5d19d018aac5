-- ===== src/Realtime/Tests.antt =====
-- The real-time callbacks and their registration at concrete inputs.
use luajack.Prelude.{ℕ, ◌≡◌, refl, true, false, none, some, List, [], ◌∷◌, arith}
use luajack.Objects.{Callbacks}
use luajack.Buffer.{Pud, audio, absent}
use luajack.Buffer.Session.{Step, on, copy, get, write, read, AllValid}
use luajack.Realtime.{Client, failed, process, run_script, start_process, sync, returned}
use luajack.Realtime.Cycle.{
  Period, periods, AllSized, AllSucceed, IsIdle, periods_stay_inside, failed_period_leaves_marks,
}
use luajack.Realtime.Register.{Kind, process_slots, process_unregister, close_leaves_nothing}
use luajack.Registry.{Registered, register, unregister, set_callback, unregister_all}
use luajack.Registry.Session
use luajack.Registry.Session.{set}
use luajack.Registry.Table.{IsLinked}
use luajack.Registry.Model.{value_at, value_list, value_list-IsRegistry}

abbrev no_callbacks : Callbacks
no_callbacks = record {
  sample_rate = none;
  xrun = none;
  graph_order = none;
  freewheel = none;
  client_registration = none;
  port_registration = none;
  port_rename = none;
  port_connect = none;
  shutdown = none;
  latency = none;
  session = none;
}

abbrev out_port : Pud (List ℕ)
out_port = record {
  kind = audio;
  input = false;
  output = true;
  in_process = false;
  period = 0;
  buf = none;
  nframes = 0;
  bufp = 0;
}

abbrev client : Client ℕ
client = record {
  cud = record {
    key = 77;
    marks = record { valid = true; process_callback = false; profile = false };
    sample_rate = 48000;
    buffer_size = 256;
    nframes = 0;
    callbacks = no_callbacks;
  };
  ports = out_port ∷ record out_port { input = true; output = false } ∷ [];
}

-- The script gets both buffers, writes more than fits to the one, reads the other and copies.
abbrev script : List (Step ℕ)
script =
    on 0 (get 0 (some (0 ∷ 0 ∷ [])))
    ∷ on 0 (write (some 5 ∷ some 6 ∷ some 7 ∷ []))
    ∷ on 1 (get 0 (some (8 ∷ 9 ∷ [])))
    ∷ on 1 (read (λ n. true) absent)
    ∷ copy absent 0 1
    ∷ []

abbrev script-AllSized : AllSized 2 script
script-AllSized = ((refl, omega arith), (tt, ((refl, omega arith), (tt, (tt, tt)))))

abbrev good : Period ℕ
good = record { exiting = false; is_function = true; nframes = 2; script = script; ok = true }

true_is_one : sync false true (some true) client ≡ returned 1 client
unfolding sync
true_is_one = refl

periods_stay_inside_example :
    (st : Client ℕ) × (periods (good ∷ good ∷ []) client ≡ some st)
    × AllValid st.ports
    × (AllSucceed (good ∷ good ∷ []) → IsIdle client → IsIdle st)
periods_stay_inside_example =
    periods_stay_inside (good ∷ good ∷ []) client (script-AllSized, (script-AllSized, tt))
      (tt, (tt, tt))

failed_period_leaves_marks_example :
    (st : Client ℕ) × (process false true 2 script false client ≡ failed st)
    × (st.cud.marks.process_callback ≡ true)
    × (st.cud.nframes ≡ 2)
    × (run_script 2 script (start_process 2 client).ports ≡ some st.ports)
failed_period_leaves_marks_example =
    failed_period_leaves_marks 2 script client script-AllSized (tt, (tt, tt)) refl

-- A registry that holds one value of another owner.
abbrev fresh : Registered value_list process_slots
fresh = record {
  registry = some 99 ∷ [];
  client = record { process = none; buffer_size = none; sync = none; timebase = none };
}

nothing_held : (k : Kind) (i : ℕ) → ¬ (process_slots.look k fresh.client ≡ some i)
nothing_held Kind.process i e = cc
nothing_held Kind.buffer_size i e = cc
nothing_held Kind.sync i e = cc
nothing_held Kind.timebase i e = cc

fresh-IsLinked : IsLinked value_list process_slots fresh
fresh-IsLinked = record {
  live = λ k i e. absurd (nothing_held k i e);
  apart = λ j k i e f. absurd (nothing_held j i e);
}

-- One callback registered, one refused by JACK.
abbrev two_calls : List (Session.Call value_list process_slots)
two_calls = set Kind.process (some 1) true ∷ set Kind.sync (some 2) false ∷ []

close_leaves_nothing_example : value_at (some 99 ∷ []) 0 ≡ some 99
unfolding process_unregister unregister_all set_callback register unregister
close_leaves_nothing_example =
    close_leaves_nothing value_list value_list-IsRegistry two_calls fresh 0 99 fresh-IsLinked refl
