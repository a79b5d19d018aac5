-- ===== src/Threads/Free.antt =====
-- What thread_free does to a thread that runs.
use luajack.Prelude.{sym, subst, ◌≡◌, refl, true, Option, none, some, List, [], ◌∷◌, arith}
use luajack.Threads.{
  Sys, in_script, returned, Action, free, cancel, step, create_step, free_step, cancel_step,
  by_thread,
}
use luajack.Threads.Reach.{Reach, Reach-IsThread}
use luajack.Threads.Invariant.{IsThread}

abbrev and_then : Option Sys → (Sys → Option Sys) → Option Sys
and_then none k = none
and_then (some s) k = k s

-- The steps one after the other; `none` if one of them cannot be made.
abbrev pub steps : List Action → Sys → Option Sys
steps [] s = some s
steps (a ∷ rest) s = and_then (step a s) (steps rest)

-- The thread stands in its script, its creation is over, and it was not freed.
abbrev pub in_its_script : Sys → Sys
in_its_script s = record s { pc = in_script; main = returned; valid = true; lock = by_thread }

is_in_its_script :
    (s : Sys)
    → s.pc ≡ in_script
    → s.main ≡ returned
    → s.valid ≡ true
    → s.lock ≡ by_thread
    → s ≡ in_its_script s
is_in_its_script s p m v l = ground arith

script_holds_lock :
    (s : Sys) → IsThread s → s.pc ≡ in_script → s.main ≡ returned → s.lock ≡ by_thread
script_holds_lock s g p m = ground arith

abbrev Broken : Option Sys → Type 0
Broken o = (t : Sys) × (o ≡ some t) × (t.broken ≡ true)

Broken-steps :
    (s : Sys) → Broken (steps (free ∷ cancel ∷ free ∷ free ∷ free ∷ []) (in_its_script s))
unfolding step create_step free_step cancel_step
Broken-steps s = (_, refl, refl)

-- Freeing a thread whose script runs, and whose cancellation acts at once, destroys a lock that is
-- held: pthread_mutex_destroy is called with the lock of the cancelled thread.
pub free_breaks_lock :
    (s : Sys)
    → Reach s
    → s.pc ≡ in_script
    → s.main ≡ returned
    → s.valid ≡ true
    → (t : Sys) × (steps (free ∷ cancel ∷ free ∷ free ∷ free ∷ []) s ≡ some t) × (t.broken ≡ true)
free_breaks_lock s r p m v =
    let l = script_holds_lock s (Reach-IsThread r) p m in
    subst (λ z. Broken (steps (free ∷ cancel ∷ free ∷ free ∷ free ∷ []) z))
      (sym (is_in_its_script s p m v l)) (Broken-steps s)
