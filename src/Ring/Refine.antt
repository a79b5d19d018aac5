-- ===== src/Ring/Refine.antt =====
-- The calls of src/ringbuffer.c refine the mailbox.
use luajack.Prelude.{
  ℕ, ◌+◌, ◌^◌, ◌<◌, ◌≡◌, refl, sym, ap, ap₂, ◌∙◌, inl, inr, Bool, true, false, Option, none, some,
  List, [], ◌∷◌, ◌++◌, append-nil, length, arith, length-append, ℤ, to_u32, of_i32, to_u32-lt,
  mod-eq_of_lt, lt→ltb, le→ltb, if◌then◌else◌, ℕ-cases, subst,
}
use luajack.Ring.{
  ringbuffer_creset, Written, no_space, done, unexpected, returned, integer, bytes, write_message,
  advance_if, lua_result, ringbuffer_luawrite, ringbuffer_luaread, ringbuffer_luaread_advance,
  ringbuffer_cwrite, ringbuffer_cread, ringbuffer_cread_advance, no_message, c_result,
}
use luajack.Ring.Api.{Ringbuffer, Documented}
use luajack.Ring.Header.{Hdr, hdr_bytes, length-hdr_bytes}
use luajack.Ring.Messages.{
  Message, header, Fits, encode, encode-append, write_message_lem, write_message_full,
  complete_header_front, complete_header_empty, complete_header_partial,
}
use luajack.Ring.Mailbox.{
  Mailbox, size, post, collect, Represents, AllFit-append, lua_message_lem, advance_lem,
}

-- A message as `read` gives it to a script.
abbrev pub deliver : Option Message → Option (ℤ × List ℕ)
deliver none = none
deliver (some (t, d)) = some (of_i32 t, d)

abbrev pub is_some : Option Message → Bool
is_some none = false
is_some (some m) = true

abbrev pub box : List Message → ℕ → Mailbox
box ms n = record { messages = ms; room = n }

module _ (j : Ringbuffer) (doc : Documented j) where
  open j use {Rb, write_space, read_advance}
  open doc use {contents}

  -- The body of both writes: done exactly when the mailbox takes the message.
  write_refines :
      (m : Message) (rb : Rb) (b : Mailbox)
      → Represents j doc rb b
      → Fits m
      → let r = write_message j (header m) m.1 rb in
        let s = post m b in (r.0 ≡ (if s.0 then done else no_space)) × Represents j doc r.1 s.1
  unfolding post
  write_refines (t, d) rb b rep f = elim (ℕ-cases (size (t, d)) b.room) [
    | inl fits ↦
        let w = write_message_lem j doc (t, d) rb (omega (arith, rep.free)) in
        rw (le→ltb b.room (size (t, d)) fits) (
          w.0,
          record {
            stored =
                w.1
                ∙ ap₂ ◌++◌ rep.stored (ap (◌++◌ (hdr_bytes (header (t, d)))) (sym (append-nil d)))
                ∙ sym (encode-append b.messages ((t, d) ∷ []));
            free = omega (
              arith,
              w.2,
              rep.free,
              length-append (hdr_bytes (header (t, d))) d,
              length-hdr_bytes (header (t, d)),
            );
            fit = AllFit-append b.messages (t, d) rep.fit f;
          },
        )
    | inr full ↦
        rw
          (
            lt→ltb b.room (size (t, d)) full,
            write_message_full j doc (header (t, d)) d rb (omega (arith, rep.free)),
          )
          (refl, rep)
  ]

  lua_result_lem :
      (r : Written × Rb) (b : Bool)
      → r.0 ≡ (if b then done else no_space)
      → ((lua_result j r).0 ≡ returned b) × ((lua_result j r).1 ≡ r.1)
  lua_result_lem (no_space, rb) true e = cc
  lua_result_lem (no_space, rb) false e = (refl, refl)
  lua_result_lem (done, rb) true e = (refl, refl)
  lua_result_lem (done, rb) false e = cc
  lua_result_lem (unexpected, rb) true e = cc
  lua_result_lem (unexpected, rb) false e = cc

  c_result_lem :
      (r : Written × Rb) (b : Bool)
      → r.0 ≡ (if b then done else no_space)
      → ((c_result j r).0 ≡ b) × ((c_result j r).1 ≡ r.1)
  c_result_lem (no_space, rb) true e = cc
  c_result_lem (no_space, rb) false e = (refl, refl)
  c_result_lem (done, rb) true e = (refl, refl)
  c_result_lem (done, rb) false e = cc
  c_result_lem (unexpected, rb) true e = cc
  c_result_lem (unexpected, rb) false e = cc

  -- `ringbuffer_luawrite` with an integer tag and a string shorter than 2^32 returns true exactly
  -- when header and data fit the free bytes, and then the message stands last; otherwise it returns
  -- false, and the mailbox is as before.
  pub luawrite_refines :
      (tag : ℤ) (d : List ℕ) (rb : Rb) (b : Mailbox)
      → Represents j doc rb b
      → length d < 2 ^ 32
      → let r = ringbuffer_luawrite j (integer tag) (bytes d) rb in
        let s = post (to_u32 tag, d) b in (r.0 ≡ returned s.0) × Represents j doc r.1 s.1
  unfolding ringbuffer_luawrite
  luawrite_refines tag d rb b rep short =
      let w = write_refines (to_u32 tag, d) rb b rep (to_u32-lt tag, short) in
      let out = write_message j (header (to_u32 tag, d)) d rb in
      let l = lua_result_lem out (post (to_u32 tag, d) b).0 w.0 in
      rw (mod-eq_of_lt short)
        (l.0, subst (λ z. Represents j doc z (post (to_u32 tag, d) b).1) (sym l.1) w.1)

  -- `ringbuffer_cwrite` with a 32-bit tag and data shorter than 2^32 returns 1 exactly when header and
  -- data fit the free bytes, and then the message stands last; otherwise it returns 0, and the
  -- mailbox is as before.
  pub cwrite_refines :
      (tag : ℕ) (d : List ℕ) (rb : Rb) (b : Mailbox)
      → Represents j doc rb b
      → tag < 2 ^ 32
      → length d < 2 ^ 32
      → let r = ringbuffer_cwrite j tag (some d) rb in
        let s = post (tag, d) b in (r.0 ≡ s.0) × Represents j doc r.1 s.1
  unfolding ringbuffer_cwrite
  cwrite_refines tag d rb b rep t short =
      let w = write_refines (tag, d) rb b rep (t, short) in
      let l = c_result_lem (write_message j (header (tag, d)) d rb) (post (tag, d) b).0 w.0 in
      rw (mod-eq_of_lt short)
        (l.0, subst (λ z. Represents j doc z (post (tag, d) b).1) (sym l.1) w.1)

  -- Past the first message the ringbuffer stands for the mailbox without it.
  pub collected :
      (m : Message) (ms : List Message) (n : ℕ) (rb : Rb)
      → Represents j doc rb (box (m ∷ ms) n)
      → Represents j doc (read_advance rb (size m)) (box ms (n + size m))
  collected m ms n rb rep =
      let a = advance_lem j doc m ms rb rep.stored in
      record { stored = a.0; free = omega (arith, a.1, rep.free); fit = rep.fit.1 }

  pub luaread-cons :
      (advance : Bool) (m : Message) (ms : List Message) (n : ℕ) (rb : Rb)
      → Represents j doc rb (box (m ∷ ms) n)
      → ringbuffer_luaread j advance rb ≡ (deliver (some m), advance_if j advance (size m) rb)
  unfolding ringbuffer_luaread
  luaread-cons advance m ms n rb rep =
      rw (complete_header_front j doc m (encode ms) rb rep.fit.0 rep.stored)
        (lua_message_lem j doc advance m (encode ms) rb rep.stored)

  luaread-nil :
      (advance : Bool) (n : ℕ) (rb : Rb)
      → Represents j doc rb (box [] n)
      → ringbuffer_luaread j advance rb ≡ (none, rb)
  unfolding ringbuffer_luaread
  luaread-nil advance n rb rep = rw (complete_header_empty j doc rb rep.stored)

  abbrev Collects : Option (ℤ × List ℕ) × Rb → Option Message × Mailbox → Type 0
  Collects r s = (r.0 ≡ deliver s.0) × Represents j doc r.1 s.1

  luaread_box :
      (ms : List Message) (n : ℕ) (rb : Rb)
      → Represents j doc rb (box ms n)
      → Collects (ringbuffer_luaread j true rb) (collect (box ms n))
  unfolding collect
  luaread_box [] n rb rep = rw (luaread-nil true n rb rep) (refl, rep)
  luaread_box (m ∷ ms) n rb rep =
      rw (luaread-cons true m ms n rb rep) (refl, collected m ms n rb rep)

  -- `ringbuffer_luaread` with `advance` returns the oldest message, tag and data whole, and removes
  -- it; on an empty mailbox it returns nil and changes nothing.
  pub luaread_refines :
      (rb : Rb) (b : Mailbox)
      → Represents j doc rb b
      → let r = ringbuffer_luaread j true rb in
        let s = collect b in (r.0 ≡ deliver s.0) × Represents j doc r.1 s.1
  luaread_refines rb b rep = luaread_box b.messages b.room rb rep

  luapeek_box :
      (ms : List Message) (n : ℕ) (rb : Rb)
      → Represents j doc rb (box ms n)
      → ringbuffer_luaread j false rb ≡ (deliver (collect (box ms n)).0, rb)
  unfolding collect
  luapeek_box [] n rb rep = luaread-nil false n rb rep
  luapeek_box (m ∷ ms) n rb rep = luaread-cons false m ms n rb rep

  -- `ringbuffer_luaread` without `advance` returns the oldest message, or nil on an empty mailbox, and
  -- the ringbuffer is the one it was given.
  pub luapeek_refines :
      (rb : Rb) (b : Mailbox)
      → Represents j doc rb b
      → ringbuffer_luaread j false rb ≡ (deliver (collect b).0, rb)
  luapeek_refines rb b rep = luapeek_box b.messages b.room rb rep

  skip_box :
      (ms : List Message) (n : ℕ) (rb : Rb)
      → Represents j doc rb (box ms n)
      → let r = ringbuffer_luaread_advance j rb in
        let s = collect (box ms n) in (r.0 ≡ is_some s.0) × Represents j doc r.1 s.1
  unfolding collect ringbuffer_luaread_advance
  skip_box [] n rb rep = rw (complete_header_empty j doc rb rep.stored) (refl, rep)
  skip_box (m ∷ ms) n rb rep =
      rw (complete_header_front j doc m (encode ms) rb rep.fit.0 rep.stored)
        (refl, collected m ms n rb rep)

  -- `ringbuffer_luaread_advance` removes the message that a read would return, and tells whether
  -- there was one.
  pub luaread_advance_refines :
      (rb : Rb) (b : Mailbox)
      → Represents j doc rb b
      → let r = ringbuffer_luaread_advance j rb in
        let s = collect b in (r.0 ≡ is_some s.0) × Represents j doc r.1 s.1
  luaread_advance_refines rb b rep = skip_box b.messages b.room rb rep

  -- After a reset no message waits.
  pub creset_refines :
      (rb : Rb)
      → (n : ℕ) × Represents j doc (ringbuffer_creset j rb) (record { messages = []; room = n })
  unfolding ringbuffer_creset
  creset_refines rb = (_, record { stored = doc.reset_empty rb; free = refl; fit = tt })

  -- A header whose data is not all written yet is invisible: the read, the peek and the skip, of the
  -- Lua and of the C interface, report nothing and leave the ringbuffer as it is.
  pub partial_message_invisible :
      (h : Hdr) (d : List ℕ) (rb : Rb) (advance : Bool) (buf : List ℕ)
      → h.tag < 2 ^ 32
      → h.len < 2 ^ 32
      → length d < h.len
      → contents rb ≡ hdr_bytes h ++ d
      → (ringbuffer_luaread j advance rb ≡ (none, rb))
        × (ringbuffer_cread j advance buf rb ≡ (no_message, rb))
        × (ringbuffer_luaread_advance j rb ≡ (false, rb))
        × (ringbuffer_cread_advance j rb ≡ (false, rb))
  unfolding ringbuffer_luaread ringbuffer_cread ringbuffer_luaread_advance ringbuffer_cread_advance
  partial_message_invisible h d rb advance buf ft fl short e =
      rw (complete_header_partial j doc h d rb ft fl short e) (refl, refl, refl, refl)
