-- ===== src/Ring/RoundTrip.antt =====
-- A message written by a script and read by a script (src/ringbuffer.c).
use luajack.Prelude.{
  ℕ, ◌+◌, ◌-◌, ◌^◌, ◌≤◌, ◌<◌, ◌≡◌, refl, ap, ◌∙◌, true, some, List, [], ◌∷◌, length, arith, ℤ,
  to_u32, of_i32-to_u32, IsI32, le→ltb, subst,
}
use luajack.Ring.{returned, integer, bytes, ringbuffer_luawrite, ringbuffer_luaread}
use luajack.Ring.Api.{Ringbuffer, Documented}
use luajack.Ring.Header.{sizeof_hdr}
use luajack.Ring.Mailbox.{size, post, Represents}
use luajack.Ring.Refine.{box, collected, luaread-cons, luawrite_refines}

module _ (j : Ringbuffer) (doc : Documented j) where
  open j use {Rb, write_space, read_advance}
  open doc use {contents}

  -- A tag in the range of int32_t and data shorter than 2^32, written to an empty ringbuffer with the
  -- space for them, are read back as they were, and leave it empty with all its space.
  pub luaread-luawrite :
      (tag : ℤ) (d : List ℕ) (rb : Rb)
      → IsI32 tag
      → length d < 2 ^ 32
      → contents rb ≡ []
      → sizeof_hdr + length d ≤ write_space rb
      → let w = ringbuffer_luawrite j (integer tag) (bytes d) rb in
        let r = ringbuffer_luaread j true w.1 in
        (w.0 ≡ returned true)
        × (r.0 ≡ some (tag, d))
        × (contents r.1 ≡ [])
        × (write_space r.1 ≡ write_space rb)
  unfolding post
  luaread-luawrite tag d rb i32 short empty space =
      let start : Represents j doc rb (box [] (write_space rb)) = record {
        stored = empty;
        free = refl;
        fit = tt;
      } in
      let w = luawrite_refines j doc tag d rb (box [] (write_space rb)) start short in
      let taken : post (to_u32 tag, d) (box [] (write_space rb))
          ≡ (true, box ((to_u32 tag, d) ∷ []) (write_space rb - size (to_u32 tag, d))) =
        rw (le→ltb (write_space rb) (sizeof_hdr + length d) space) refl in
      let rep : Represents j doc (ringbuffer_luawrite j (integer tag) (bytes d) rb).1
          (box ((to_u32 tag, d) ∷ []) (write_space rb - size (to_u32 tag, d))) =
        subst (λ z. Represents j doc (ringbuffer_luawrite j (integer tag) (bytes d) rb).1 z.1) taken
          w.1 in
      let r = luaread-cons j doc true (to_u32 tag, d) [] _ _ rep in
      let after = collected j doc (to_u32 tag, d) [] _ _ rep in
      (
        w.0 ∙ ap (λ z. returned z.0) taken,
        ap (λ z. z.0) r ∙ ap (λ t. some (t, d)) (of_i32-to_u32 tag i32),
        ap (λ z. contents z.1) r ∙ after.stored,
        ap (λ z. write_space z.1) r ∙ after.free ∙ omega arith,
      )
