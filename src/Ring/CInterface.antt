-- ===== src/Ring/CInterface.antt =====
-- The read of the C interface of src/ringbuffer.c, with the buffer of its caller.
use luajack.Prelude.{
  ℕ, ◌≡◌, refl, Bool, List, [], ◌∷◌, length, take, drop, ltb, arith, length-append, take-append,
  lt→ltb, le→ltb, ne→==, if◌then◌else◌, length-drop,
}
use luajack.Ring.{advance_if, ringbuffer_cread, too_small, got, copy_into}
use luajack.Ring.Api.{Ringbuffer, Documented}
use luajack.Ring.Messages.{Message, encode, complete_header_front}
use luajack.Ring.Mailbox.{size, Represents, message_data-front}
use luajack.Ring.Refine.{box}

-- The caller's buffer after a message with this data was copied to it.
abbrev filled : List ℕ → List ℕ → List ℕ
filled buf [] = if ltb 0 (length buf) then copy_into buf (0 ∷ []) else buf
filled buf (x ∷ d) = copy_into buf (x ∷ d)

take-filled : (buf d : List ℕ) → take (length d) (filled buf d) ≡ d
take-filled buf [] = refl
take-filled buf (x ∷ d) = take-append (length (x ∷ d)) (x ∷ d) (drop (length (x ∷ d)) buf) refl

length-filled :
    (buf d : List ℕ)
    → length (filled buf d) ≡ (if ltb (length buf) (length d) then length d else length buf)
length-filled [] [] = refl
length-filled (y ∷ buf) [] =
    rw (lt→ltb 0 (length (y ∷ buf)) (omega arith), le→ltb (length (y ∷ buf)) 0 (omega arith)) refl
length-filled buf (x ∷ d) =
    grind
      (arith, length-append (x ∷ d) (drop (length (x ∷ d)) buf), length-drop (length (x ∷ d)) buf)

module _ (j : Ringbuffer) (doc : Documented j) where
  open j use {Rb, write_space, read_advance}
  open doc use {contents}

  cread-cons :
      (advance : Bool) (buf : List ℕ) (m : Message) (ms : List Message) (n : ℕ) (rb : Rb)
      → Represents j doc rb (box (m ∷ ms) n)
      → ringbuffer_cread j advance buf rb ≡ (
          if ltb (length buf) (length m.1)
          then (too_small (length m.1), rb)
          else (got m.0 (length m.1) (filled buf m.1), advance_if j advance (size m) rb))
  unfolding ringbuffer_cread
  cread-cons advance buf (t, []) ms n rb rep =
      rw (complete_header_front j doc (t, []) (encode ms) rb rep.fit.0 rep.stored) refl
  cread-cons advance buf (t, x ∷ d) ms n rb rep =
      rw
        (
          complete_header_front j doc (t, x ∷ d) (encode ms) rb rep.fit.0 rep.stored,
          ne→== (length (x ∷ d)) 0 (omega arith),
          message_data-front j doc (t, x ∷ d) (encode ms) rb rep.stored,
        )
        refl

  -- When a message waits, `ringbuffer_cread` with a buffer too short for the data of the first one
  -- returns 0 with the number of bytes needed, and the message stays; with a buffer that holds it, it
  -- returns the tag and the length, with the data at the start of the buffer, whose length is kept, and
  -- the message is removed on `advance`.
  pub cread_refines :
      (advance : Bool) (buf : List ℕ) (m : Message) (ms : List Message) (n : ℕ) (rb : Rb)
      → Represents j doc rb (record { messages = m ∷ ms; room = n })
      → (buf' : List ℕ) × (ringbuffer_cread j advance buf rb ≡ (
          if ltb (length buf) (length m.1)
          then (too_small (length m.1), rb)
          else (got m.0 (length m.1) buf', if advance then read_advance rb (size m) else rb)))
        × (take (length m.1) buf' ≡ m.1)
        × (length buf' ≡ (if ltb (length buf) (length m.1) then length m.1 else length buf))
  cread_refines advance buf m ms n rb rep = (
    filled buf m.1,
    cread-cons advance buf m ms n rb rep,
    take-filled buf m.1,
    length-filled buf m.1,
  )
