-- ===== src/Threads/Tests.antt =====
-- Runs of a client thread, and the theorems about it at concrete inputs.
use luajack.Prelude.{◌≡◌, refl, Bool, true, false, Option, none, some, List, [], ◌∷◌}
use luajack.Threads.{
  Sys, Action, create, thread, cancel, signal, signal_end, free, wait, finish, new_thread, step,
  create_step, thread_step, signal_step, signal_end_step, free_step, in_script, returned, running,
  by_thread,
}
use luajack.Threads.Reach.{Reach, start, next}
use luajack.Threads.Free.{steps, free_breaks_lock}

abbrev is_some : Option Sys → Bool
is_some none = false
is_some (some s) = true

-- The thread may start before ThreadCreate_ sets TUD_READY, but then it stays in its loop.
starts_late : steps (create true ∷ thread wait ∷ thread wait ∷ []) new_thread ≡ none
unfolding step create_step thread_step
starts_late = refl

-- A wait, a signal and the end of the script, before the client is closed.
abbrev whole_life : List Action
whole_life =
    create true
    ∷ thread wait
    ∷ create true
    ∷ thread wait
    ∷ thread wait
    ∷ signal
    ∷ signal_end
    ∷ thread wait
    ∷ thread finish
    ∷ thread wait
    ∷ thread wait
    ∷ thread wait
    ∷ free
    ∷ free
    ∷ free
    ∷ free
    ∷ []

ends_well : is_some (steps whole_life new_thread) ≡ true
unfolding step create_step thread_step signal_step signal_end_step free_step
ends_well = refl

-- The state after the script has started.
abbrev started : Sys
started = record new_thread { status = running; lock = by_thread; pc = in_script; main = returned }

started-Reach : Reach started
unfolding step create_step thread_step
started-Reach =
    next (thread wait) refl
      (next (create true) refl (next (thread wait) refl (next (create true) refl start refl) refl)
        refl)
      refl

free_breaks_lock_example :
    (t : Sys) × (steps (free ∷ cancel ∷ free ∷ free ∷ free ∷ []) started ≡ some t)
    × (t.broken ≡ true)
free_breaks_lock_example = free_breaks_lock started started-Reach refl refl refl
