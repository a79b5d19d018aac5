-- ===== src/Events.antt =====
-- src/evt.c and src/syncpipe.c: the queue through which the JACK threads hand events to the main
-- thread, with the pipe that wakes it. Each function that takes the lock is one step.
pub mod Api
pub mod Fifo
pub mod Model
pub mod Pipes
pub mod Runs
mod Tests
use luajack.Prelude.{
  ℕ, ◌+◌, ◌-◌, ◌%◌, ◌^◌, Bool, Option, none, some, List, [], ◌∷◌, zero, suc, ltb, if◌then◌else◌, ℤ,
  pos, negsuc,
}
use Api.{Simpleq, Pipe, Io, count, again, fault}

-- The CT_xxx codes of src/structs.h; `unset` is the 0 that evt_new() leaves.
pub data EvtType : Type 0 where
  unset ct_sample_rate ct_xrun ct_graph_order ct_freewheel ct_client_registration : EvtType
  ct_port_registration ct_port_rename ct_port_connect ct_shutdown ct_latency ct_session : EvtType

-- `struct luajack_evt_s`, with its address. Strings are lists of bytes without the final zero.
pub record Evt : Type 0 where
  pub addr : ℕ
  pub client_key : ℕ
  pub type : EvtType
  pub nframes : ℕ
  pub op : ℕ
  pub code : ℕ
  pub mode : ℕ
  pub session_event : Option ℕ
  pub arg1 : Option (List ℕ)
  pub arg2 : Option (List ℕ)

-- What the allocator gives out and takes back: the blocks freed, latest first.
pub data Block : Type 0 where
  evt_block session_block : ℕ → Block
  string_block : List ℕ → Block

-- `Malloc` returns NULL or an address; the record is zeroed.
unfoldable pub evt_new : Option ℕ → Option Evt
evt_new none = none
evt_new (some addr) = some (record {
  addr = addr;
  client_key = 0;
  type = unset;
  nframes = 0;
  op = 0;
  code = 0;
  mode = 0;
  session_event = none;
  arg1 = none;
  arg2 = none;
})

abbrev free_string : Option (List ℕ) → List Block → List Block
free_string none freed = freed
free_string (some s) freed = string_block s ∷ freed

abbrev free_session : Option ℕ → List Block → List Block
free_session none freed = freed
free_session (some e) freed = session_block e ∷ freed

pub evt_free : Evt → List Block → List Block
evt_free e freed =
    evt_block e.addr ∷ free_session e.session_event (free_string e.arg2 (free_string e.arg1 freed))

-- `unsigned int` arithmetic
abbrev pub inc_uint : ℕ → ℕ
inc_uint n = (n + 1) % 2 ^ 32

abbrev pub dec_uint : ℕ → ℕ
dec_uint n = (n + 2 ^ 32 - 1) % 2 ^ 32

-- The result of syncpipe_write: 1 byte or 0 written, 0 for a write that would block, -1 for an error.
abbrev write_rc : Io → ℤ
write_rc (count n) = pos n
write_rc again = pos 0
write_rc fault = negsuc 0

-- That of syncpipe_read: 0, or -1 for a closed pipe and for an error.
abbrev read_rc : Io → ℤ
read_rc (count n) = if ltb 0 n then pos 0 else negsuc 0
read_rc again = pos 0
read_rc fault = negsuc 0

module _ (pipe : Pipe) where
  open pipe use {P, write, read}

  pub syncpipe_write : P → ℤ × P
  syncpipe_write p = (write_rc (write p).0, (write p).1)

  pub syncpipe_read : P → ℤ × P
  syncpipe_read p = (read_rc (read p).0, (read p).1)

module _ (s : Simpleq Evt) (pipe : Pipe) where
  -- The static variables of evt.c, and luajack_evtpipe.
  pub record EvtQueue : Type 0 where
    pub head : s.Q
    pub counter : ℕ
    pub evtpipe : pipe.P

  unfoldable pub evt_count : EvtQueue → ℕ
  evt_count q = q.counter

  pub evt_insert : Evt → EvtQueue → EvtQueue
  evt_insert e q = record {
    head = s.insert_tail q.head e;
    counter = inc_uint q.counter;
    evtpipe = (syncpipe_write pipe q.evtpipe).1;
  }

  abbrev remove_first : Option Evt → EvtQueue → Option Evt × EvtQueue
  remove_first none q = (none, q)
  remove_first (some e) q = (
    some e,
    record {
      head = s.remove_head q.head;
      counter = dec_uint q.counter;
      evtpipe = (syncpipe_read pipe q.evtpipe).1;
    },
  )

  pub remove_nolock : EvtQueue → Option Evt × EvtQueue
  remove_nolock q = remove_first (s.first q.head) q

  pub evt_remove : EvtQueue → Option Evt × EvtQueue
  evt_remove q = remove_nolock q

  pub evt_first : EvtQueue → Option Evt
  evt_first q = s.first q.head

  abbrev free_next :
      (EvtQueue → List Block → Option (EvtQueue × List Block))
      → Option Evt × EvtQueue
      → List Block
      → Option (EvtQueue × List Block)
  free_next go (none, q) freed = some (q, freed)
  free_next go (some e, q) freed = go q (evt_free e freed)

  -- The loop at exit, with fuel; `none` means that the fuel ran out.
  pub evt_free_all : ℕ → EvtQueue → List Block → Option (EvtQueue × List Block)
  evt_free_all zero q freed = none
  evt_free_all (suc fuel) q freed = free_next (evt_free_all fuel) (remove_nolock q) freed
