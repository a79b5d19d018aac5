-- ===== src/Ring/Run.antt =====
-- Sequences of the calls that a script makes of a ringbuffer (src/ringbuffer.c), against the mailbox.
use luajack.Prelude.{
  ℕ, ◌^◌, ◌<◌, ◌≡◌, refl, ap, ap₂, ◌∙◌, Bool, true, false, Option, List, [], ◌∷◌, length, ℤ, to_u32,
}
use luajack.Ring.{
  LuaWrite, returned, integer, bytes, ringbuffer_luawrite, ringbuffer_luaread,
  ringbuffer_luaread_advance,
}
use luajack.Ring.Api.{Ringbuffer, Documented}
use luajack.Ring.Mailbox.{Mailbox, post, collect, Represents}
use luajack.Ring.Refine.{
  deliver, is_some, luawrite_refines, luaread_refines, luapeek_refines, luaread_advance_refines,
}

pub data Call : Type 0 where
  write : ℤ → List ℕ → Call
  read peek read_advance : Call

-- What the script gets back.
pub data Reply : Type 0 where
  wrote : LuaWrite → Reply
  message : Option (ℤ × List ℕ) → Reply
  advanced : Bool → Reply

-- Data of a write is shorter than the uint32_t length field can tell.
abbrev pub AllShort : List Call → Type 0
AllShort [] = Unit {0}
AllShort (write tag d ∷ cs) = (length d < 2 ^ 32) × AllShort cs
AllShort (read ∷ cs) = AllShort cs
AllShort (peek ∷ cs) = AllShort cs
AllShort (read_advance ∷ cs) = AllShort cs

unfoldable pub run_mailbox : List Call → Mailbox → List Reply
run_mailbox [] b = []
run_mailbox (write tag d ∷ cs) b =
    wrote (returned (post (to_u32 tag, d) b).0) ∷ run_mailbox cs (post (to_u32 tag, d) b).1
run_mailbox (read ∷ cs) b = message (deliver (collect b).0) ∷ run_mailbox cs (collect b).1
run_mailbox (peek ∷ cs) b = message (deliver (collect b).0) ∷ run_mailbox cs b
run_mailbox (read_advance ∷ cs) b = advanced (is_some (collect b).0) ∷ run_mailbox cs (collect b).1

module _ (j : Ringbuffer) where
  open j use {Rb}

  unfoldable pub run : List Call → Rb → List Reply
  run [] rb = []
  run (write tag d ∷ cs) rb =
      let r = ringbuffer_luawrite j (integer tag) (bytes d) rb in wrote r.0 ∷ run cs r.1
  run (read ∷ cs) rb = let r = ringbuffer_luaread j true rb in message r.0 ∷ run cs r.1
  run (peek ∷ cs) rb = let r = ringbuffer_luaread j false rb in message r.0 ∷ run cs r.1
  run (read_advance ∷ cs) rb = let r = ringbuffer_luaread_advance j rb in advanced r.0 ∷ run cs r.1

module _ (j : Ringbuffer) (doc : Documented j) where
  open j use {Rb}

  -- No sequence of writes (of data shorter than 2^32), reads, peeks and skips tells a ringbuffer from
  -- the bounded first-in first-out mailbox that it stands for: every reply is the same.
  pub run_refines :
      (cs : List Call) (rb : Rb) (b : Mailbox)
      → Represents j doc rb b
      → AllShort cs
      → run j cs rb ≡ run_mailbox cs b
  unfolding run run_mailbox
  run_refines [] rb b rep s = refl
  run_refines (write tag d ∷ cs) rb b rep s =
      let w = luawrite_refines j doc tag d rb b rep s.0 in
      ap₂ ◌∷◌ (ap wrote w.0) (run_refines cs _ _ w.1 s.1)
  run_refines (read ∷ cs) rb b rep s =
      let r = luaread_refines j doc rb b rep in ap₂ ◌∷◌ (ap message r.0) (run_refines cs _ _ r.1 s)
  run_refines (peek ∷ cs) rb b rep s =
      let p = luapeek_refines j doc rb b rep in
      ap₂ ◌∷◌ (ap (λ z. message z.0) p) (ap (λ z. run j cs z.1) p ∙ run_refines cs rb b rep s)
  run_refines (read_advance ∷ cs) rb b rep s =
      let r = luaread_advance_refines j doc rb b rep in
      ap₂ ◌∷◌ (ap advanced r.0) (run_refines cs _ _ r.1 s)
