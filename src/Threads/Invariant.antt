-- ===== src/Threads/Invariant.antt =====
-- What holds of a thread at every point, if jack_client_create_thread succeeds.
use luajack.Prelude.{
  ℕ, suc, ◌+◌, ◌≤◌, ◌≡◌, refl, Bool, true, false, Option, none, some, if◌then◌else◌, ◌⊎◌, arith,
  if_both,
}
use luajack.Threads.{
  Status, configuring, ready, running, done, failed, Lock, nobody, by_thread, by_signaller,
  destroyed, Pc, no_thread, starting, spinning, in_script, waiting, unlocking, exited, cancelled,
  marked, detached, Main, creating, created, create_failed, undefined, returned, cancelling, joined,
  closed, freed, Choice, wait, finish, fail, Sys, is_free, thread_at, create_at, cancel_at, free_at,
  unlock_at, has_stopped, is_running, step, create_step, thread_step, cancel_step, signal_step,
  signal_end_step, free_step, Action, create, thread, cancel, signal, signal_end, free,
}

-- The thread holds the lock from pthread_mutex_lock to pthread_mutex_unlock but in a wait, and for good
-- if it is cancelled while it runs.
abbrev pub HoldsLock : Pc → Status → Lock → Type 0
HoldsLock spinning status lock = lock ≡ by_thread
HoldsLock in_script status lock = lock ≡ by_thread
HoldsLock (marked ok) status lock = lock ≡ by_thread
HoldsLock (detached ok) status lock = lock ≡ by_thread
HoldsLock unlocking status lock = lock ≡ by_thread
HoldsLock cancelled status lock = status ≡ running → lock ≡ by_thread
HoldsLock pc status lock = Unit {0}

abbrev pub HasStatus : Pc → Status → Type 0
HasStatus no_thread status = status ≡ configuring
HasStatus starting status = (status ≡ configuring) ⊎ (status ≡ ready)
HasStatus spinning status = (status ≡ configuring) ⊎ (status ≡ ready)
HasStatus in_script status = status ≡ running
HasStatus waiting status = status ≡ running
HasStatus (marked ok) status = (status ≡ done) ⊎ (status ≡ failed)
HasStatus (detached ok) status = (status ≡ done) ⊎ (status ≡ failed)
HasStatus unlocking status = (status ≡ done) ⊎ (status ≡ failed)
HasStatus exited status = (status ≡ done) ⊎ (status ≡ failed)
HasStatus cancelled status = Unit

-- The state is there until the thread takes it, and is not closed before that.
abbrev pub HasState : Pc → Bool → ℕ → Type 0
HasState (detached ok) has_state closes = (has_state ≡ false) × (closes ≡ 0)
HasState unlocking has_state closes = (has_state ≡ false) × (closes ≤ 1)
HasState exited has_state closes = (has_state ≡ false) × (closes ≤ 1)
HasState cancelled has_state closes = closes + (if has_state then 1 else 0) ≤ 1
HasState pc has_state closes = (has_state ≡ true) × (closes ≡ 0)

abbrev pub is_freed : Main → Bool
is_freed freed = true
is_freed _ = false

abbrev pub is_closed : Main → Bool
is_closed closed = true
is_closed freed = true
is_closed _ = false

abbrev pub is_joined : Main → Bool
is_joined joined = true
is_joined closed = true
is_joined freed = true
is_joined _ = false

abbrev pub is_early : Main → Bool
is_early creating = true
is_early created = true
is_early _ = false

abbrev pub is_creating : Main → Bool
is_creating creating = true
is_creating _ = false

abbrev pub is_failed : Main → Bool
is_failed create_failed = true
is_failed undefined = true
is_failed _ = false

abbrev pub has_thread : Pc → Bool
has_thread no_thread = false
has_thread _ = true

-- With the thread at `pc`.
pub record IsGood (pc : Pc) (s : Sys) : Type 0 where
  pub lock : is_freed s.main ≡ false → HoldsLock pc s.status s.lock
  pub status : HasStatus pc s.status
  pub state : is_closed s.main ≡ false → HasState pc s.has_state s.closes
  pub once : s.closes ≤ 1
  pub ended : is_joined s.main ≡ true → has_stopped pc ≡ true
  pub early : is_early s.main ≡ true → s.status ≡ configuring
  pub first : is_creating s.main ≡ true → pc ≡ no_thread
  pub begun : is_creating s.main ≡ false → has_thread pc ≡ true
  pub there : s.valid ≡ true → is_freed s.main ≡ false
  pub made : is_failed s.main ≡ false

abbrev pub HoldsAfter : Option Sys → Type 0
HoldsAfter none = Unit
HoldsAfter (some s) = IsGood s.pc s

thread_at-IsGood :
    (pc : Pc) (choice : Choice) (s : Sys) → IsGood pc s → HoldsAfter (thread_at pc choice s)
thread_at-IsGood no_thread choice s g = tt
thread_at-IsGood starting choice s g = if_both HoldsAfter (is_free s.lock) (ground arith) tt
thread_at-IsGood spinning choice s g = ground arith
thread_at-IsGood in_script wait s g = ground arith
thread_at-IsGood in_script finish s g = ground arith
thread_at-IsGood in_script fail s g = ground arith
thread_at-IsGood waiting choice s g = if_both HoldsAfter (is_free s.lock) (ground arith) tt
thread_at-IsGood (marked ok) choice s g = ground arith
thread_at-IsGood (detached true) choice s g = ground arith
thread_at-IsGood (detached false) choice s g = ground arith
thread_at-IsGood unlocking choice s g = ground arith
thread_at-IsGood exited choice s g = tt
thread_at-IsGood cancelled choice s g = tt

cancel_at-IsGood : (pc : Pc) (s : Sys) → IsGood pc s → HoldsAfter (cancel_at pc s)
cancel_at-IsGood no_thread s g = tt
cancel_at-IsGood starting s g = ground arith
cancel_at-IsGood spinning s g = ground arith
cancel_at-IsGood in_script s g = ground arith
cancel_at-IsGood waiting s g = if_both HoldsAfter (is_free s.lock) (ground arith) tt
cancel_at-IsGood (marked ok) s g = ground arith
cancel_at-IsGood (detached ok) s g = ground arith
cancel_at-IsGood unlocking s g = ground arith
cancel_at-IsGood exited s g = tt
cancel_at-IsGood cancelled s g = tt

-- The main thread at `m`.
abbrev pub IsGoodAt : Main → Pc → Sys → Type 0
IsGoodAt m pc s = IsGood pc (record s { main = m })

now_ready :
    (pc : Pc) (s : Sys)
    → IsGoodAt created pc s
    → IsGood pc (record s { main = returned; status = ready })
now_ready no_thread s g = ground arith
now_ready starting s g = ground arith
now_ready spinning s g = ground arith
now_ready in_script s g = ground arith
now_ready waiting s g = ground arith
now_ready (marked ok) s g = ground arith
now_ready (detached ok) s g = ground arith
now_ready unlocking s g = ground arith
now_ready exited s g = ground arith
now_ready cancelled s g = ground arith

create_at-IsGood : (m : Main) (s : Sys) → IsGoodAt m s.pc s → HoldsAfter (create_at m true s)
create_at-IsGood creating s g = ground arith
create_at-IsGood created s g = now_ready s.pc s g
create_at-IsGood create_failed s g = tt
create_at-IsGood undefined s g = tt
create_at-IsGood returned s g = tt
create_at-IsGood cancelling s g = tt
create_at-IsGood joined s g = tt
create_at-IsGood closed s g = tt
create_at-IsGood freed s g = tt

now_closed :
    (pc : Pc) (s : Sys)
    → IsGoodAt joined pc s
    → IsGood pc
        (record s { main = closed; closes = if s.has_state then suc s.closes else s.closes })
now_closed no_thread s g = ground arith
now_closed starting s g = ground arith
now_closed spinning s g = ground arith
now_closed in_script s g = ground arith
now_closed waiting s g = ground arith
now_closed (marked ok) s g = ground arith
now_closed (detached ok) s g = ground arith
now_closed unlocking s g = ground arith
now_closed exited s g = ground arith
now_closed cancelled s g = ground arith

free_at-IsGood : (m : Main) (s : Sys) → IsGoodAt m s.pc s → HoldsAfter (free_at m s)
free_at-IsGood creating s g = tt
free_at-IsGood created s g = tt
free_at-IsGood create_failed s g = ground arith
free_at-IsGood undefined s g = tt
free_at-IsGood returned s g = ground arith
free_at-IsGood cancelling s g = ground arith
free_at-IsGood joined s g = now_closed s.pc s g
free_at-IsGood closed s g = ground arith
free_at-IsGood freed s g = tt

-- A signaller takes the lock only of a thread that waits, or that runs no script.
pub signalled :
    (pc : Pc) (s : Sys)
    → s.valid ≡ true
    → is_running s.status ≡ true
    → is_free s.lock ≡ true
    → IsGood pc s
    → (pc ≡ waiting) × IsGood pc (record s { lock = by_signaller })
signalled no_thread s v r f g = ground arith
signalled starting s v r f g = ground arith
signalled spinning s v r f g = ground arith
signalled in_script s v r f g = ground arith
signalled waiting s v r f g = ground arith
signalled (marked ok) s v r f g = ground arith
signalled (detached ok) s v r f g = ground arith
signalled unlocking s v r f g = ground arith
signalled exited s v r f g = ground arith
signalled cancelled s v r f g = ground arith

unlocked :
    (pc : Pc) (s : Sys)
    → s.lock ≡ by_signaller
    → IsGood pc s
    → IsGood pc (record s { lock = nobody })
unlocked no_thread s e g = ground arith
unlocked starting s e g = ground arith
unlocked spinning s e g = ground arith
unlocked in_script s e g = ground arith
unlocked waiting s e g = ground arith
unlocked (marked ok) s e g = ground arith
unlocked (detached ok) s e g = ground arith
unlocked unlocking s e g = ground arith
unlocked exited s e g = ground arith
unlocked cancelled s e g = ground arith

unlock_at-IsGood : (l : Lock) (s : Sys) → s.lock ≡ l → IsGood s.pc s → HoldsAfter (unlock_at l s)
unlock_at-IsGood nobody s e g = tt
unlock_at-IsGood by_thread s e g = tt
unlock_at-IsGood by_signaller s e g = unlocked s.pc s e g
unlock_at-IsGood destroyed s e g = tt

abbrev pub IsThread : Sys → Type 0
IsThread s = IsGood s.pc s

-- Only the failure of jack_client_create_thread is left out.
abbrev pub creates : Action → Bool
creates (create ok) = ok
creates _ = true

signal-IsGood :
    (v r f : Bool) (s : Sys)
    → s.valid ≡ v
    → is_running s.status ≡ r
    → is_free s.lock ≡ f
    → IsThread s
    → HoldsAfter (
        if v
        then (if r then (if f then some (record s { lock = by_signaller }) else some s) else some s)
        else none)
signal-IsGood false r f s ev er ef g = tt
signal-IsGood true false f s ev er ef g = g
signal-IsGood true true false s ev er ef g = g
signal-IsGood true true true s ev er ef g = (signalled s.pc s ev er ef g).1

pub step-IsThread : (a : Action) (s : Sys) → creates a ≡ true → IsThread s → HoldsAfter (step a s)
unfolding step create_step thread_step cancel_step signal_step signal_end_step free_step
step-IsThread (create true) s c g = create_at-IsGood s.main s g
step-IsThread (create false) s c g = cc
step-IsThread (thread choice) s c g = thread_at-IsGood s.pc choice s g
step-IsThread cancel s c g = if_both HoldsAfter s.cancel (cancel_at-IsGood s.pc s g) tt
step-IsThread signal s c g =
    signal-IsGood s.valid (is_running s.status) (is_free s.lock) s refl refl refl g
step-IsThread signal_end s c g = unlock_at-IsGood s.lock s refl g
step-IsThread free s c g = free_at-IsGood s.main s g
