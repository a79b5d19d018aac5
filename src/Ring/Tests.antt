-- ===== src/Ring/Tests.antt =====
-- Tests of src/ringbuffer.c over the ringbuffer of `Model`, and its theorems at concrete inputs.
use luajack.Prelude.{
  ℕ, ◌≡◌, refl, true, false, none, some, List, [], ◌∷◌, ◌++◌, length, take, arith, pos, negsuc,
  to_u32, of_i32,
}
use luajack.Ring.{
  returned, raised, invalid_tag, integer, not_integer, bytes, no_message, got, ringbuffer_luawrite,
  ringbuffer_luaread, ringbuffer_luaread_advance, ringbuffer_cread, ringbuffer_cread_advance,
  write_message, write_data, complete_header, message_data,
}
use luajack.Ring.Header.{hdr_bytes, hdr_of, word_of, word_bytes}
use luajack.Ring.Mailbox.{Mailbox, Represents}
use luajack.Ring.Refine.{partial_message_invisible}
use luajack.Ring.CInterface.{cread_refines}
use luajack.Ring.RoundTrip.{luaread-luawrite}
use luajack.Ring.Run.{
  write, read, peek, read_advance, wrote, message, advanced, run, run_mailbox, run_refines,
}
use luajack.Ring.Model.{ListRing, list_ring, list_ring-Documented}

abbrev fresh : ListRing
fresh = record { waiting = []; stored = []; free = 24 }

-- One message waits: tag 7, data 1 2 3.
abbrev first : ℕ × List ℕ
first = (7, 1 ∷ 2 ∷ 3 ∷ [])

abbrev loaded : ListRing
loaded = record {
  waiting = hdr_bytes (record { tag = 7; len = 3 }) ++ (1 ∷ 2 ∷ 3 ∷ []);
  stored = [];
  free = 13;
}

abbrev loaded_box : Mailbox
loaded_box = record { messages = first ∷ []; room = 13 }

loaded-Represents : Represents list_ring list_ring-Documented loaded loaded_box
loaded-Represents = record { stored = refl; free = refl; fit = (omega arith, tt) }

script_replies :
    run list_ring (write (negsuc 0) (5 ∷ 6 ∷ []) ∷ peek ∷ read ∷ read ∷ read_advance ∷ []) loaded
    ≡ wrote (returned true)
      ∷ message (some (pos 7, 1 ∷ 2 ∷ 3 ∷ []))
      ∷ message (some (pos 7, 1 ∷ 2 ∷ 3 ∷ []))
      ∷ message (some (negsuc 0, 5 ∷ 6 ∷ []))
      ∷ advanced false
      ∷ []
unfolding run ringbuffer_luawrite ringbuffer_luaread ringbuffer_luaread_advance write_message
    write_data complete_header message_data hdr_bytes hdr_of word_of word_bytes to_u32 of_i32
script_replies = refl

tag_is_checked :
    ringbuffer_luawrite list_ring not_integer (bytes []) fresh ≡ (raised invalid_tag, fresh)
unfolding ringbuffer_luawrite
tag_is_checked = refl

-- The header of a message of three bytes, with two of them written.
abbrev half_written : ListRing
half_written = record {
  waiting = hdr_bytes (record { tag = 7; len = 3 }) ++ (1 ∷ 2 ∷ []);
  stored = [];
  free = 14;
}

partial_message_invisible_example :
    (ringbuffer_luaread list_ring true half_written ≡ (none, half_written))
    × (ringbuffer_cread list_ring true (0 ∷ 0 ∷ []) half_written ≡ (no_message, half_written))
    × (ringbuffer_luaread_advance list_ring half_written ≡ (false, half_written))
    × (ringbuffer_cread_advance list_ring half_written ≡ (false, half_written))
partial_message_invisible_example =
    partial_message_invisible list_ring list_ring-Documented (record { tag = 7; len = 3 })
      (1 ∷ 2 ∷ []) half_written true (0 ∷ 0 ∷ []) (omega arith) (omega arith) (omega arith) refl

cread_refines_example :
    (buf' : List ℕ) × (ringbuffer_cread list_ring true (0 ∷ 0 ∷ 0 ∷ 0 ∷ []) loaded
      ≡ (got 7 3 buf', list_ring.read_advance loaded 11))
    × (take 3 buf' ≡ 1 ∷ 2 ∷ 3 ∷ [])
    × (length buf' ≡ 4)
cread_refines_example =
    cread_refines list_ring list_ring-Documented true (0 ∷ 0 ∷ 0 ∷ 0 ∷ []) first [] 13 loaded
      loaded-Represents

luaread-luawrite_example :
    let w = ringbuffer_luawrite list_ring (integer (negsuc 4)) (bytes (4 ∷ 5 ∷ [])) fresh in
    let r = ringbuffer_luaread list_ring true w.1 in
    (w.0 ≡ returned true)
    × (r.0 ≡ some (negsuc 4, 4 ∷ 5 ∷ []))
    × (list_ring-Documented.contents r.1 ≡ [])
    × (list_ring.write_space r.1 ≡ list_ring.write_space fresh)
luaread-luawrite_example =
    luaread-luawrite list_ring list_ring-Documented (negsuc 4) (4 ∷ 5 ∷ []) fresh (omega arith)
      (omega arith) refl (omega arith)

run_refines_example :
    run list_ring (write (pos 9) (4 ∷ []) ∷ read ∷ read ∷ []) loaded
    ≡ run_mailbox (write (pos 9) (4 ∷ []) ∷ read ∷ read ∷ []) loaded_box
run_refines_example =
    run_refines list_ring list_ring-Documented (write (pos 9) (4 ∷ []) ∷ read ∷ read ∷ []) loaded
      loaded_box loaded-Represents (omega arith, tt)
