-- ===== src/Events/Runs.antt =====
-- Sequences of insertions and removals in the event queue of src/evt.c.
use luajack.Prelude.{ℕ, ◌+◌, ◌^◌, ◌≤◌, ◌<◌, ◌≡◌, ap, List, [], ◌∷◌, length, length-append, arith}
use luajack.Events.{Evt, EvtQueue, evt_insert, evt_remove}
use luajack.Events.Api.{Simpleq, IsFifo, tail, Pipe, IsPipe, count}
use luajack.Events.Fifo.{events, IsValid, insert-IsValid, remove-IsValid, insert-events, remove_lem}

pub data Use : Type 0 where
  insert : Evt → Use
  remove : Use

length-tail : (es : List Evt) → length (tail es) ≤ length es
length-tail [] = omega arith
length-tail (e ∷ es) = omega arith

module _ (s : Simpleq Evt) (pipe : Pipe) where
  abbrev pub use_queue : Use → EvtQueue s pipe → EvtQueue s pipe
  use_queue (insert e) q = evt_insert s pipe e q
  use_queue remove q = (evt_remove s pipe q).1

  abbrev pub uses : List Use → EvtQueue s pipe → EvtQueue s pipe
  uses [] q = q
  uses (u ∷ us) q = uses us (use_queue u q)

module _ (s : Simpleq Evt) (pipe : Pipe) (fifo : IsFifo s) (isp : IsPipe pipe) where
  open isp use {pending}

  -- A pipe with less than `most` unread bytes takes another one.
  abbrev pub HasRoom : ℕ → Type 0
  HasRoom most = (p : pipe.P) → pending p < most → (pipe.write p).0 ≡ count 1

  use-IsValid :
      (most : ℕ) (u : Use) (q : EvtQueue s pipe)
      → HasRoom most
      → most < 2 ^ 32
      → length (events s pipe fifo isp q) < most
      → IsValid s pipe fifo isp q
      → IsValid s pipe fifo isp (use_queue s pipe u q)
        × (length (events s pipe fifo isp (use_queue s pipe u q))
            ≤ length (events s pipe fifo isp q) + 1)
  use-IsValid most (insert e) q room small lt v = (
    insert-IsValid s pipe fifo isp e q v (room q.evtpipe (omega (arith, v.in_step))),
    omega (
      arith,
      ap length (insert-events s pipe fifo isp e q),
      length-append (events s pipe fifo isp q) (e ∷ []),
    ),
  )
  use-IsValid most remove q room small lt v = (
    remove-IsValid s pipe fifo isp q v (omega arith),
    omega
        (arith, ap length (remove_lem s pipe fifo isp q).1, length-tail (events s pipe fifo isp q)),
  )

  -- A queue whose counter is its length, with one byte in the pipe for each event, stays so under any
  -- sequence of `evt_insert` and `evt_remove`, if the pipe has room for one more byte for each of them
  -- and the counter, an unsigned int, for one more event.
  pub uses-IsValid :
      (most : ℕ) (us : List Use) (q : EvtQueue s pipe)
      → HasRoom most
      → most < 2 ^ 32
      → length (events s pipe fifo isp q) + length us ≤ most
      → IsValid s pipe fifo isp q
      → IsValid s pipe fifo isp (uses s pipe us q)
  uses-IsValid most [] q room small enough v = v
  uses-IsValid most (u ∷ us) q room small enough v =
      let (v2, n) = use-IsValid most u q room small (omega arith) v in
      uses-IsValid most us (use_queue s pipe u q) room small (omega (arith, n)) v2
