-- ===== src/Realtime/Cycle.antt =====
-- The process cycles of a client: which buffers are accessed, and what a cycle leaves behind.
use luajack.Prelude.{
  ℕ, ◌≡◌, refl, ap, ◌∙◌, Bool, true, false, Option, none, some, List, [], ◌∷◌, if_both, if_true,
}
use luajack.Buffer.{Pud, buffer_drop}
use luajack.Buffer.Session.{Step, AllGiven, AllValid, calls_stay_inside}
use luajack.Realtime.{
  Client, Result, returned, failed, overrun, process, process_body, start_process, finish_process,
  run_script, all_at_period, end_process, map_ports, follow,
}

-- JACK gives buffers of `n` samples to the calls of `get_buffer`.
abbrev pub AllSized : {S : Type 0} → ℕ → List (Step S) → Type 0
AllSized n script = AllGiven (all_at_period n script)

-- No port has a buffer, and none is in the process callback.
abbrev pub AllIdle : {S : Type 0} → List (Pud (List S)) → Type 0
AllIdle [] = Unit
AllIdle (p ∷ ps) = ((p.buf ≡ none) × (p.in_process ≡ false)) × AllIdle ps

abbrev pub IsIdle : {S : Type 0} → Client S → Type 0
IsIdle st = (st.cud.marks.process_callback ≡ false) × (st.cud.nframes ≡ 0) × AllIdle st.ports

-- One call of the process callback.
pub record Period (S : Type 0) : Type 0 where
  pub exiting : Bool
  pub is_function : Bool
  pub nframes : ℕ
  pub script : List (Step S)
  pub ok : Bool

module _ {S : Type 0} where
  abbrev pub AllPeriodsSized : List (Period S) → Type 0
  AllPeriodsSized [] = Unit
  AllPeriodsSized (c ∷ cs) = AllSized c.nframes c.script × AllPeriodsSized cs

  -- No script fails.
  abbrev pub AllSucceed : List (Period S) → Type 0
  AllSucceed [] = Unit
  AllSucceed (c ∷ cs) = (c.ok ≡ true) × AllSucceed cs

  abbrev after : Result (Client S) → Option (Client S)
  after (returned rc st) = some st
  after (failed st) = some st
  after overrun = none

  abbrev and_then : Option (Client S) → (Client S → Option (Client S)) → Option (Client S)
  and_then none k = none
  and_then (some st) k = k st

  abbrev pub period : Period S → Client S → Result (Client S)
  period c st = process c.exiting c.is_function c.nframes c.script c.ok st

  -- The client after some periods; `none` after an access outside of a buffer.
  abbrev pub periods : List (Period S) → Client S → Option (Client S)
  periods [] st = some st
  periods (c ∷ cs) st = and_then (after (period c st)) (periods cs)

  run_script-AllValid :
      (n : ℕ) (script : List (Step S)) (ps : List (Pud (List S)))
      → AllSized n script
      → AllValid ps
      → (qs : List (Pud (List S))) × ((run_script n script ps ≡ some qs) × AllValid qs)
  unfolding run_script
  run_script-AllValid n script ps sized valid =
      calls_stay_inside (all_at_period n script) ps sized valid

  started-AllValid :
      (n : ℕ) (ps : List (Pud (List S))) → AllValid ps → AllValid (map_ports (follow true n) ps)
  started-AllValid n [] valid = tt
  started-AllValid n (p ∷ ps) (v, valid) = (v, started-AllValid n ps valid)

  dropped-AllIdle :
      (ps : List (Pud (List S))) → AllIdle (map_ports (λ p. follow false 0 (buffer_drop p)) ps)
  unfolding buffer_drop
  dropped-AllIdle [] = tt
  dropped-AllIdle (p ∷ ps) = ((refl, refl), dropped-AllIdle ps)

  dropped-AllValid :
      (ps : List (Pud (List S))) → AllValid (map_ports (λ p. follow false 0 (buffer_drop p)) ps)
  unfolding buffer_drop
  dropped-AllValid [] = tt
  dropped-AllValid (p ∷ ps) = (tt, dropped-AllValid ps)

  -- What holds after a callback: the ports are valid, and after one that succeeds the client is idle
  -- again if it was idle.
  abbrev Ended : Bool → Client S → Result (Client S) → Type 0
  Ended ok st (returned rc st2) = AllValid st2.ports × (IsIdle st → IsIdle st2)
  Ended ok st (failed st2) = AllValid st2.ports × (ok ≡ true → IsIdle st → IsIdle st2)
  Ended ok st overrun = ⊥

  ended :
      (ok : Bool) (n : ℕ) (st : Client S) (ps : List (Pud (List S)))
      → AllValid ps
      → Ended ok st (end_process ok (start_process n st) (some ps))
  unfolding finish_process start_process
  ended true n st ps valid = (dropped-AllValid ps, λ idle. (refl, refl, dropped-AllIdle ps))
  ended false n st ps valid = (valid, λ e idle. cc)

  body-Ended :
      (n : ℕ) (script : List (Step S)) (ok : Bool) (st : Client S)
      → AllSized n script
      → AllValid st.ports
      → Ended ok st (process_body n script ok st)
  unfolding start_process
  body-Ended n script ok st sized valid =
      let (ps, (reached, pv)) =
        run_script-AllValid n script _ sized (started-AllValid n st.ports valid) in
      rw reached (ended ok n st ps pv)

  process-Ended :
      (c : Period S) (st : Client S)
      → AllSized c.nframes c.script
      → AllValid st.ports
      → Ended c.ok st (period c st)
  unfolding process
  process-Ended c st sized valid =
      if_both (Ended c.ok st) c.exiting (valid, λ idle. idle)
        (if_both (Ended c.ok st) st.cud.marks.valid
          (if_both (Ended c.ok st) c.is_function (body-Ended c.nframes c.script c.ok st sized valid)
            (valid, λ e idle. idle))
          (valid, λ idle. idle))

  after-Ended :
      (ok : Bool) (st : Client S) (out : Result (Client S))
      → Ended ok st out
      → (st2 : Client S) × ((after out ≡ some st2)
          × (AllValid st2.ports × (ok ≡ true → IsIdle st → IsIdle st2)))
  after-Ended ok st (returned rc st2) (valid, idle) = (st2, (refl, (valid, λ e. idle)))
  after-Ended ok st (failed st2) h = (st2, (refl, h))
  after-Ended ok st overrun h = absurd h

  -- Over any number of process callbacks, in which the script makes any calls on the client's audio and
  -- custom ports (not its MIDI ports), copies from one to another included, no sample outside of the buffers is accessed, if JACK gives buffers of the size of the period. If
  -- no script fails, the client is idle after them as it was before: it is not marked as in the
  -- process callback, its number of frames is 0, and no port holds a buffer.
  pub periods_stay_inside :
      (cs : List (Period S)) (st : Client S)
      → AllPeriodsSized cs
      → AllValid st.ports
      → (st2 : Client S) × (periods cs st ≡ some st2)
        × AllValid st2.ports
        × (AllSucceed cs → IsIdle st → IsIdle st2)
  periods_stay_inside [] st sized valid = (st, refl, valid, λ all idle. idle)
  periods_stay_inside (c ∷ cs) st (size, sized) valid =
      let (st1, (reached, (v1, i1))) = after-Ended c.ok st _ (process-Ended c st size valid) in
      let (st2, run, v2, i2) = periods_stay_inside cs st1 sized v1 in
      (
        st2,
        ap (λ o. and_then o (periods cs)) reached ∙ run,
        v2,
        λ all idle. i2 all.1 (i1 all.0 idle),
      )

  -- A script that fails in the process callback leaves the client marked as in it, with the period as
  -- its number of frames and with the buffers as the script left them: neither buffer_drop_all nor
  -- CancelProcessCallback is reached.
  pub failed_period_leaves_marks :
      (n : ℕ) (script : List (Step S)) (st : Client S)
      → AllSized n script
      → AllValid st.ports
      → st.cud.marks.valid ≡ true
      → (st2 : Client S) × (process false true n script false st ≡ failed st2)
        × (st2.cud.marks.process_callback ≡ true)
        × (st2.cud.nframes ≡ n)
        × (run_script n script (start_process n st).ports ≡ some st2.ports)
  unfolding process start_process
  failed_period_leaves_marks n script st sized valid open_client =
      let (ps, (reached, pv)) =
        run_script-AllValid n script _ sized (started-AllValid n st.ports valid) in
      (
        record (start_process n st) { ports = ps },
        if_true st.cud.marks.valid _ _ open_client ∙ rw reached refl,
        refl,
        refl,
        reached,
      )
