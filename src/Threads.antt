-- ===== src/Threads.antt =====
-- src/thread.c: a client thread from its creation to its end, with the threads that act on it: the main
-- thread, which creates and frees it, and any thread that signals it. Each function below makes the next
-- step of one of them; `none` is a step that cannot be made now, such as taking a lock that is held.
-- The script chooses at each point whether to go on waiting for a signal, to end or to fail.
pub mod Invariant
pub mod Reach
pub mod Free
pub mod All
mod Tests
use luajack.Prelude.{ℕ, suc, Bool, true, false, Option, none, some, if◌then◌else◌}

-- The TUD_xxx codes.
pub data Status : Type 0 where
  configuring ready running done failed : Status

-- Who holds `tud->lock`.
pub data Lock : Type 0 where
  nobody by_thread by_signaller destroyed : Lock

-- Where ThreadFunc stands: before pthread_mutex_lock, in the loop, in lua_pcall, in pthread_cond_wait,
-- after the status is set, after T is set to NULL (with whether the script succeeded), before
-- pthread_mutex_unlock.
pub data Pc : Type 0 where
  no_thread starting spinning in_script waiting unlocking exited cancelled : Pc
  marked detached : Bool → Pc

-- Where the main thread stands: in ThreadCreate_ before and after jack_client_create_thread, after it,
-- in thread_free, and after pthread_cancel of a thread that was never created, which POSIX leaves
-- undefined.
pub data Main : Type 0 where
  creating created create_failed returned cancelling joined closed freed undefined : Main

-- What the script does next.
pub data Choice : Type 0 where
  wait finish fail : Choice

pub record Sys : Type 0 where
  pub status : Status
  pub lock : Lock
  pub pc : Pc
  pub main : Main
  pub valid : Bool
  -- whether pthread_cancel was called
  pub cancel : Bool
  -- whether `tud->state` is not NULL, and how often lua_close was called with the thread's state
  pub has_state : Bool
  pub closes : ℕ
  -- whether pthread_mutex_destroy was called on a lock that was held
  pub broken : Bool

-- After tud_new and the initialisation of the lock and the condition.
abbrev pub new_thread : Sys
new_thread = record {
  status = configuring;
  lock = nobody;
  pc = no_thread;
  main = creating;
  valid = true;
  cancel = false;
  has_state = true;
  closes = 0;
  broken = false;
}

abbrev is_free : Lock → Bool
is_free nobody = true
is_free by_thread = false
is_free by_signaller = false
is_free destroyed = false

abbrev is_configuring : Status → Bool
is_configuring configuring = true
is_configuring _ = false

abbrev is_running : Status → Bool
is_running running = true
is_running _ = false

-- The rest of ThreadCreate_; `ok` is whether jack_client_create_thread succeeds.
abbrev create_at : Main → Bool → Sys → Option Sys
create_at creating true s = some (record s { main = created; pc = starting })
create_at creating false s =
    some (record s { main = create_failed; lock = destroyed; closes = suc s.closes })
create_at created ok s = some (record s { main = returned; status = ready })
create_at _ ok s = none

pub create_step : Bool → Sys → Option Sys
create_step ok s = create_at s.main ok s

abbrev script_step : Choice → Sys → Option Sys
script_step wait s = some (record s { pc = waiting; lock = nobody })
script_step finish s = some (record s { pc = marked true; status = done })
script_step fail s = some (record s { pc = marked false; status = failed })

-- ThreadFunc. A failed script's state is not closed, but its error is registered.
abbrev thread_at : Pc → Choice → Sys → Option Sys
thread_at no_thread choice s = none
thread_at starting choice s =
    if is_free s.lock then some (record s { pc = spinning; lock = by_thread }) else none
thread_at spinning choice s =
    if is_configuring s.status then none else some (record s { pc = in_script; status = running })
thread_at in_script choice s = script_step choice s
thread_at waiting choice s =
    if is_free s.lock then some (record s { pc = in_script; lock = by_thread }) else none
thread_at (marked ok) choice s = some (record s { pc = detached ok; has_state = false })
thread_at (detached true) choice s = some (record s { pc = unlocking; closes = suc s.closes })
thread_at (detached false) choice s = some (record s { pc = unlocking })
thread_at unlocking choice s = some (record s { pc = exited; lock = nobody })
thread_at exited choice s = none
thread_at cancelled choice s = none

pub thread_step : Choice → Sys → Option Sys
thread_step choice s = thread_at s.pc choice s

-- The thread's cancellation is asynchronous: once it is requested it acts at any point. A wait takes
-- the lock again first.
abbrev cancel_at : Pc → Sys → Option Sys
cancel_at no_thread s = none
cancel_at exited s = none
cancel_at cancelled s = none
cancel_at waiting s =
    if is_free s.lock then some (record s { pc = cancelled; lock = by_thread }) else none
cancel_at _ s = some (record s { pc = cancelled })

pub cancel_step : Sys → Option Sys
cancel_step s = if s.cancel then cancel_at s.pc s else none

-- thread_signal, with the lock that pthread_mutex_trylock takes; and the unlock after
-- pthread_cond_signal.
pub signal_step : Sys → Option Sys
signal_step s =
    if s.valid
    then (if is_running s.status
        then (if is_free s.lock then some (record s { lock = by_signaller }) else some s)
        else some s)
    else none

abbrev unlock_at : Lock → Sys → Option Sys
unlock_at by_signaller s = some (record s { lock = nobody })
unlock_at _ s = none

pub signal_end_step : Sys → Option Sys
signal_end_step s = unlock_at s.lock s

abbrev has_stopped : Pc → Bool
has_stopped no_thread = true
has_stopped exited = true
has_stopped cancelled = true
has_stopped _ = false

-- thread_free, as thread_free_all calls it.
abbrev free_at : Main → Sys → Option Sys
free_at returned s = if s.valid then some (record s { main = cancelling; cancel = true }) else none
free_at create_failed s = if s.valid then some (record s { main = undefined }) else none
free_at cancelling s = if has_stopped s.pc then some (record s { main = joined }) else none
free_at joined s =
    some (record s { main = closed; closes = if s.has_state then suc s.closes else s.closes })
free_at closed s = some (record s {
  main = freed;
  lock = destroyed;
  broken = if is_free s.lock then s.broken else true;
  valid = false;
})
free_at _ s = none

pub free_step : Sys → Option Sys
free_step s = free_at s.main s

-- One step of any of the threads.
pub data Action : Type 0 where
  create : Bool → Action
  thread : Choice → Action
  cancel signal signal_end free : Action

pub step : Action → Sys → Option Sys
unfolding create_step thread_step cancel_step signal_step signal_end_step free_step
step (create ok) s = create_step ok s
step (thread choice) s = thread_step choice s
step cancel s = cancel_step s
step signal s = signal_step s
step signal_end s = signal_end_step s
step free s = free_step s
