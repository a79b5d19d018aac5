-- ===== src/Ring/Mailbox.antt =====
-- A ringbuffer as a client sees it: a bounded mailbox of messages. The Lua calls of
-- src/ringbuffer.c against it.
use luajack.Prelude.{
  ℕ, ◌+◌, ◌-◌, ◌≡◌, refl, sym, ap, ◌∙◌, Bool, true, false, Option, none, some, List, [], ◌∷◌, ◌++◌,
  append_assoc, length, take, drop, ltb, arith, length-append, take-append, drop-append, of_i32,
  ne→==, if◌then◌else◌,
}
use luajack.Ring.{message_data, advance_if, lua_message}
use luajack.Ring.Api.{Ringbuffer, Documented}
use luajack.Ring.Header.{sizeof_hdr, hdr_bytes, length-hdr_bytes}
use luajack.Ring.Messages.{Message, header, Fits, AllFit, encode, message_data_lem}

-- The mailbox: the messages that wait, oldest first, and the free bytes.
pub record Mailbox : Type 0 where
  pub messages : List Message
  pub room : ℕ

abbrev pub size : Message → ℕ
size (t, d) = sizeof_hdr + length d

unfoldable pub post : Message → Mailbox → Bool × Mailbox
post m b =
    if ltb b.room (size m)
    then (false, b)
    else (true, record { messages = b.messages ++ m ∷ []; room = b.room - size m })

-- The oldest message, and the mailbox without it.
unfoldable pub collect : Mailbox → Option Message × Mailbox
collect b = elim b.messages [
  | [] ↦ (none, b)
  | m ∷ ms ↦ (some m, record { messages = ms; room = b.room + size m })
]

module _ (j : Ringbuffer) (doc : Documented j) where
  open j use {Rb, write_space}
  open doc use {contents}

  pub record Represents (rb : Rb) (b : Mailbox) : Type 0 where
    pub stored : contents rb ≡ encode b.messages
    pub free : write_space rb ≡ b.room
    pub fit : AllFit b.messages

pub AllFit-append : (ms : List Message) (m : Message) → AllFit ms → Fits m → AllFit (ms ++ m ∷ [])
AllFit-append [] m h f = (f, tt)
AllFit-append (x ∷ ms) m h f = (h.0, AllFit-append ms m h.1 f)

module _ (j : Ringbuffer) (doc : Documented j) where
  open j use {Rb, write_space, read_vector, read_advance}
  open doc use {contents}

  -- The data that a read takes from the readable parts is the data of the first message.
  pub message_data-front :
      (m : Message) (rest : List ℕ) (rb : Rb)
      → contents rb ≡ hdr_bytes (header m) ++ (m.1 ++ rest)
      → message_data (read_vector rb).0 (read_vector rb).1 (length m.1) ≡ m.1
  message_data-front (t, d) rest rb e =
      let v0 = (read_vector rb).0 in
      let v1 = (read_vector rb).1 in
      let whole : v0 ++ v1 ≡ hdr_bytes (header (t, d)) ++ (d ++ rest) =
        doc.read_vector_lem rb ∙ e in
      message_data_lem v0 v1 (length d) (
        rw whole (
          omega (
            arith,
            length-append (hdr_bytes (header (t, d))) (d ++ rest),
            length-append d rest,
            length-hdr_bytes (header (t, d)),
          )))
      ∙ ap (λ z. take (length d) (drop sizeof_hdr z)) whole
      ∙ ap (take (length d)) (
          drop-append sizeof_hdr (hdr_bytes (header (t, d))) (d ++ rest)
            (length-hdr_bytes (header (t, d))))
      ∙ take-append (length d) d rest refl

  pub lua_message_lem :
      (advance : Bool) (m : Message) (rest : List ℕ) (rb : Rb)
      → contents rb ≡ hdr_bytes (header m) ++ (m.1 ++ rest)
      → lua_message j advance (header m) rb
        ≡ (some (of_i32 m.0, m.1), advance_if j advance (size m) rb)
  lua_message_lem advance (t, []) rest rb e = refl
  lua_message_lem advance (t, x ∷ d) rest rb e =
      rw (ne→== (length (x ∷ d)) 0 (omega arith), message_data-front (t, x ∷ d) rest rb e) refl

  -- Advancing past the first message leaves the others.
  pub advance_lem :
      (m : Message) (ms : List Message) (rb : Rb)
      → contents rb ≡ encode (m ∷ ms)
      → (contents (read_advance rb (size m)) ≡ encode ms)
        × (write_space (read_advance rb (size m)) ≡ write_space rb + size m)
  advance_lem (t, d) ms rb e =
      let bs = hdr_bytes (header (t, d)) in
      let l8 : length bs ≡ sizeof_hdr = length-hdr_bytes (header (t, d)) in
      let long : length (contents rb) ≡ sizeof_hdr + (length d + length (encode ms)) =
        ap length e
        ∙ omega (arith, l8, length-append bs (d ++ encode ms), length-append d (encode ms)) in
      let cut : drop (size (t, d)) (bs ++ (d ++ encode ms)) ≡ encode ms =
        ap (drop (size (t, d))) (sym (append_assoc bs d (encode ms)))
        ∙ drop-append (size (t, d)) (bs ++ d) (encode ms) (omega (arith, l8, length-append bs d)) in
      (
        doc.read_advance_contents rb (size (t, d)) (omega arith) ∙ ap (drop (size (t, d))) e ∙ cut,
        doc.read_advance_space rb (size (t, d)) (omega arith),
      )
