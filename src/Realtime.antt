-- ===== src/Realtime.antt =====
-- The real-time callbacks of src/process.c, which run in a thread of JACK. What the script's function
-- does to the port buffers is the list of its calls on the audio and custom ports of the client; whether the process is
-- exiting, whether the registry holds a function and whether lua_pcall returns LUA_OK are arguments.
-- The statistics of profiling and the garbage collection are left out.
pub mod Cycle
pub mod Register
mod Tests
use luajack.Prelude.{ℕ, Bool, true, false, Option, none, some, List, [], ◌∷◌, if◌then◌else◌, ◌==◌}
use luajack.Objects.{Cud}
use luajack.Buffer.{Pud, buffer_drop}
use luajack.Buffer.Session.{Call, get, Step, on, copy, calls}

-- The client, and its queue of ports.
pub record Client (S : Type 0) : Type 0 where
  pub cud : Cud
  pub ports : List (Pud (List S))

-- A callback returns a number to JACK; `failed` is a return of 0 after luajack_error(). `overrun` is an
-- access outside of a port buffer.
pub data Result (P : Type 0) : Type 0 where
  returned : ℕ → P → Result P
  failed : P → Result P
  overrun : Result P

module _ {S : Type 0} where
  -- The two BEGIN macros, for Lua and for C callbacks.
  abbrev begin_lua : Bool → Bool → (Client S → Result (Client S)) → Client S → Result (Client S)
  begin_lua exiting is_function body st =
      if exiting
      then returned 0 st
      else if st.cud.marks.valid
      then (if is_function then body st else failed st)
      else returned 0 st

  abbrev begin_c : Bool → (Client S → Result (Client S)) → Client S → Result (Client S)
  begin_c exiting body st =
      if exiting then returned 0 st else if st.cud.marks.valid then body st else returned 0 st

  abbrev map_ports : (Pud (List S) → Pud (List S)) → List (Pud (List S)) → List (Pud (List S))
  map_ports f [] = []
  map_ports f (p ∷ ps) = f p ∷ map_ports f ps

  -- What is read through `pud->cud` follows the client.
  abbrev follow : Bool → ℕ → Pud (List S) → Pud (List S)
  follow marked n p = record p { in_process = marked; period = n }

  -- MarkProcessCallback, and the sizes.
  pub start_process : ℕ → Client S → Client S
  start_process n st = record st {
    cud = record st.cud {
      marks = record st.cud.marks { process_callback = true };
      buffer_size = n;
      nframes = n;
    };
    ports = map_ports (follow true n) st.ports;
  }

  -- buffer_drop_all and CancelProcessCallback.
  pub finish_process : Client S → Client S
  finish_process st = record st {
    cud = record st.cud { marks = record st.cud.marks { process_callback = false }; nframes = 0 };
    ports = map_ports (λ p. follow false 0 (buffer_drop p)) st.ports;
  }

  -- `get_buffer` asks for as many frames as the cycle has.
  abbrev at_period : ℕ → Call S → Call S
  at_period n (get m given) = get n given
  at_period n call = call

  abbrev all_at_period : ℕ → List (Step S) → List (Step S)
  all_at_period n [] = []
  all_at_period n (on i c ∷ ss) = on i (at_period n c) ∷ all_at_period n ss
  all_at_period n (copy count to from ∷ ss) = copy count to from ∷ all_at_period n ss

  -- The calls on the client's ports, by their place in its queue.
  pub run_script : ℕ → List (Step S) → List (Pud (List S)) → Option (List (Pud (List S)))
  run_script n script ps = calls (all_at_period n script) ps

  abbrev end_process : Bool → Client S → Option (List (Pud (List S))) → Result (Client S)
  end_process ok st none = overrun
  end_process ok st (some ps) =
      let done = record st { ports = ps } in
      if ok then returned 0 (finish_process done) else failed done

  abbrev process_body : ℕ → List (Step S) → Bool → Client S → Result (Client S)
  process_body n script ok st =
      let started = start_process n st in end_process ok started (run_script n script started.ports)

  -- Process
  pub process : Bool → Bool → ℕ → List (Step S) → Bool → Client S → Result (Client S)
  process exiting is_function n script ok st =
      begin_lua exiting is_function (process_body n script ok) st

  -- CProcess; the C function returns 0 or an error.
  pub c_process : Bool → ℕ → List (Step S) → ℕ → Client S → Result (Client S)
  c_process exiting n script rc st = begin_c exiting (process_body n script (rc == 0)) st

  abbrev resize : ℕ → Bool → Client S → Result (Client S)
  resize n ok st =
      let sized = record st { cud = record st.cud { buffer_size = n } } in
      if ok then returned 0 sized else failed sized

  -- BufferSize and CBufferSize
  pub buffer_size : Bool → Bool → ℕ → Bool → Client S → Result (Client S)
  buffer_size exiting is_function n ok st = begin_lua exiting is_function (resize n ok) st

  pub c_buffer_size : Bool → ℕ → ℕ → Client S → Result (Client S)
  c_buffer_size exiting n rc st = begin_c exiting (resize n (rc == 0)) st

  abbrev answered : Option Bool → Client S → Result (Client S)
  answered none st = failed st
  answered (some true) st = returned 1 st
  answered (some false) st = returned 0 st

  -- Sync: whether the script's function returns a true value; `none` if it fails.
  pub sync : Bool → Bool → Option Bool → Client S → Result (Client S)
  sync exiting is_function answer st = begin_lua exiting is_function (answered answer) st

  -- CSync
  pub c_sync : Bool → ℕ → Client S → Result (Client S)
  c_sync exiting rc st = begin_c exiting (returned rc) st

  -- Timebase_ and CTimebase_
  pub timebase : Bool → Bool → Bool → Client S → Result (Client S)
  timebase exiting is_function ok st =
      begin_lua exiting is_function (λ c. if ok then returned 0 c else failed c) st

  pub c_timebase : Bool → Client S → Result (Client S)
  c_timebase exiting st = begin_c exiting (returned 0) st
