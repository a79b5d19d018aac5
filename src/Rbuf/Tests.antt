-- ===== src/Rbuf/Tests.antt =====
-- Tests of src/rbuf.c, and its theorems at concrete inputs.
use luajack.Prelude.{
  ℕ, zero, suc, ◌+◌, ◌^◌, ◌≡◌, refl, true, false, none, some, [], ◌∷◌, ◌++◌, ◌==◌, pos, to_u32,
  of_i32, arith,
}
use luajack.Ring.{integer, bytes, ringbuffer_new}
use luajack.Ring.Header.{hdr_bytes}
use luajack.Ring.Mailbox.{Mailbox, post, Represents}
use luajack.Ring.Model.{ListRing, list_ring, list_ring-Documented}
use luajack.Events.Model.{small_pipe, small_pipe-IsPipe}
use luajack.Database.{found, xud_new}
use luajack.Database.Model.{key_list, key_list-IsTree}
use luajack.Rbuf.{Channel, value, Rbufs, int_of, rbuf_new, rud_check, ringbuffer_write}
use luajack.Rbuf.Wake.{write, read, HasRoom, IsAwake, refused_write_wakes}
use luajack.Rbuf.Reference.{new_reference}
use luajack.Rbuf.Safety.{Op, create, method, free_all}
use luajack.Rbuf.CApi.{
  lua, c, Obj, get_xud, crashes, steps_never_crash, luajack_ringbuffer_write, c_write_wakes_nobody,
}
use luajack.Rbuf.CApi
use luajack.Rbuf.Safety

three_bytes-HasRoom : HasRoom list_ring list_ring-Documented small_pipe small_pipe-IsPipe 3
three_bytes-HasRoom zero lt = refl
three_bytes-HasRoom (suc zero) lt = refl
three_bytes-HasRoom (suc (suc zero)) lt = refl
three_bytes-HasRoom (suc (suc (suc n))) lt = absurd (omega arith)

-- One message waits, tag 7 with the data 1 2 3, and one byte in the pipe; 13 bytes are free.
abbrev ring : ListRing
ring = record {
  waiting = hdr_bytes (record { tag = 7; len = 3 }) ++ (1 ∷ 2 ∷ 3 ∷ []);
  stored = [];
  free = 13;
}

abbrev channel : Channel list_ring small_pipe
channel = record { rbuf = ring; pipefd = some 1 }

abbrev box : Mailbox
box = record { messages = (7, 1 ∷ 2 ∷ 3 ∷ []) ∷ []; room = 13 }

channel-IsAwake : IsAwake list_ring list_ring-Documented small_pipe small_pipe-IsPipe channel 1 box
channel-IsAwake = record {
  piped = refl;
  stands = record { stored = refl; free = refl; fit = (omega arith, tt) };
  told = omega arith;
}

refused_write_wakes_example :
    let w =
      ringbuffer_write list_ring small_pipe
        (integer (pos 9))
        (bytes (1 ∷ 2 ∷ 3 ∷ 4 ∷ 5 ∷ 6 ∷ []))
        channel in
    (w.0 ≡ value false)
    × Represents list_ring list_ring-Documented w.1.rbuf box
    × ((q : ℕ) × (w.1.pipefd ≡ some q) × (q ≡ 1 + 1))
unfolding to_u32
refused_write_wakes_example =
    refused_write_wakes list_ring list_ring-Documented small_pipe small_pipe-IsPipe 3 (pos 9)
      (1 ∷ 2 ∷ 3 ∷ 4 ∷ 5 ∷ 6 ∷ []) channel 1 box three_bytes-HasRoom (omega arith) (omega arith)
      (omega arith) channel-IsAwake

-- A ringbuffer at the address 10, open.
abbrev one_ringbuffer : Rbufs key_list list_ring small_pipe
one_ringbuffer = record {
  db = record { tree = 10 ∷ []; valid = λ k. k == 10; freed = [] };
  chan = λ a. some channel;
  cud = λ a. 5;
  pipes = 1;
}

-- The object of the ringbuffer at 10.
abbrev object : Obj
object = record { type = CApi.ringbuffer; xud = 10 }

-- An address that does not fit an int comes back as another number.
truncated :
    (rbuf_new key_list list_ring small_pipe 5 100 false false none
      (some (2 ^ 32 + 20))
      one_ringbuffer).0
    ≡ value (pos 20)
unfolding rbuf_new ringbuffer_new xud_new int_of of_i32
truncated = refl

new_reference_example :
    rud_check key_list list_ring small_pipe
      (some (pos 20))
      (rbuf_new key_list list_ring small_pipe 5 100 false false none
        (some (2 ^ 32 + 20))
        one_ringbuffer).1
    ≡ rud_check key_list list_ring small_pipe (some (pos 20)) one_ringbuffer
new_reference_example =
    new_reference key_list key_list-IsTree list_ring small_pipe 5 100 false false none (2 ^ 32 + 20)
      one_ringbuffer (pos 20) (omega arith) truncated

steps_never_crash_example :
    crashes key_list list_ring small_pipe
      (lua (create true (found 5) (some (pos 100)) false true (some 0) (some 20))
        ∷ c (CApi.write 9 (some (4 ∷ []))) (some object)
        ∷ lua (method Safety.read (some (pos 10)))
        ∷ lua (free_all 5 (10 ∷ 20 ∷ []))
        ∷ c (CApi.write 9 (some (4 ∷ []))) (some object)
        ∷ c CApi.reset none
        ∷ [])
      one_ringbuffer
    ≡ false
steps_never_crash_example =
    steps_never_crash key_list list_ring small_pipe
      (lua (create true (found 5) (some (pos 100)) false true (some 0) (some 20))
        ∷ c (CApi.write 9 (some (4 ∷ []))) (some object)
        ∷ lua (method Safety.read (some (pos 10)))
        ∷ lua (free_all 5 (10 ∷ 20 ∷ []))
        ∷ c (CApi.write 9 (some (4 ∷ []))) (some object)
        ∷ c CApi.reset none
        ∷ [])
      one_ringbuffer (λ a v. (channel, refl))

object_is_valid : get_xud CApi.ringbuffer one_ringbuffer.db.valid (some object) ≡ some 10
unfolding get_xud
object_is_valid = refl

c_write_wakes_nobody_example :
    let r =
      luajack_ringbuffer_write key_list list_ring small_pipe
        (some object)
        9
        (some (4 ∷ []))
        one_ringbuffer in
    (r.0 ≡ value true)
    × ((after : Channel list_ring small_pipe) × (r.1.chan 10 ≡ some after)
        × Represents list_ring list_ring-Documented after.rbuf (post (9, 4 ∷ []) box).1
        × (after.pipefd ≡ some 1))
c_write_wakes_nobody_example =
    c_write_wakes_nobody key_list list_ring list_ring-Documented small_pipe (some object) 10 9
      (4 ∷ []) one_ringbuffer channel box object_is_valid refl
      (record { stored = refl; free = refl; fit = (omega arith, tt) }) (omega arith) (omega arith)
      (omega arith)
