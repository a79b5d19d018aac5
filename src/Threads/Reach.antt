-- ===== src/Threads/Reach.antt =====
-- The states that a client thread can come to.
use luajack.Prelude.{◌&&◌, ◌≡◌, Bool, true, false, Option, some, arith, subst}
use luajack.Threads.{
  Pc, no_thread, starting, spinning, waiting, cancelled, Sys, new_thread, Action, step, is_running,
  is_free,
}
use luajack.Threads.Invariant.{IsThread, HoldsAfter, creates, step-IsThread}

-- Reached from a new thread by steps of any of the threads, in any order.
pub data Reach : Sys → Type 0 where
  start : Reach new_thread
  next : {s t : Sys} (a : Action) → creates a ≡ true → Reach s → step a s ≡ some t → Reach t

new_thread-IsThread : IsThread new_thread
new_thread-IsThread = ground arith

holds_after : (o : Option Sys) (t : Sys) → HoldsAfter o → o ≡ some t → IsThread t
holds_after o t h e = subst HoldsAfter e h

pub Reach-IsThread : {s : Sys} → Reach s → IsThread s
Reach-IsThread start = new_thread-IsThread
Reach-IsThread (next {s = s} {t = t} a c r e) =
    holds_after (step a s) t (step-IsThread a s c (Reach-IsThread r)) e

-- The script has been started.
abbrev pub has_run : Pc → Bool
has_run no_thread = false
has_run starting = false
has_run spinning = false
has_run cancelled = false
has_run _ = true

abbrev pub is_waiting : Pc → Bool
is_waiting waiting = true
is_waiting _ = false

-- A signaller gets the lock.
abbrev pub gets_lock : Sys → Bool
gets_lock s = s.valid && (is_running s.status && is_free s.lock)
