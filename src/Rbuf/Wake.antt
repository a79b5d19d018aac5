-- ===== src/Rbuf/Wake.antt =====
-- The pipe of a ringbuffer tells its reader, through select(), that messages wait.
use luajack.Prelude.{
  lt→ltb, ℕ, ◌+◌, ◌^◌, ◌≤◌, ◌<◌, ◌≡◌, refl, ap, ◌∙◌, subst, Bool, true, false, Option, some, List,
  [], ◌∷◌, length, ℤ, to_u32,
}
use luajack.Ring.{integer, bytes, returned, raised, LuaWrite, ringbuffer_luawrite}
use luajack.Ring.Api.{Ringbuffer, Documented}
use luajack.Ring.Mailbox.{Mailbox, post, size, Represents}
use luajack.Ring.Refine.{luawrite_refines}
use luajack.Events.Pipes.{syncpipe_write_lem}
use luajack.Events.Api.{Pipe, IsPipe, count}
use luajack.Rbuf.{
  Channel, value, ringbuffer_write, ringbuffer_read, ringbuffer_peek, ringbuffer_read_advance,
  after_write, ringbuffer_reset, rbuf_pipe_write,
}

pub data Call : Type 0 where
  write : ℤ → List ℕ → Call
  read peek read_advance reset : Call

abbrev pub AllShort : List Call → Type 0
AllShort [] = Unit {0}
AllShort (write tag d ∷ cs) = (length d < 2 ^ 32) × AllShort cs
AllShort (c ∷ cs) = AllShort cs

module _ (j : Ringbuffer) (pipe : Pipe) where
  abbrev pub call : Call → Channel j pipe → Channel j pipe
  call (write tag d) ch = (ringbuffer_write j pipe (integer tag) (bytes d) ch).1
  call read ch = (ringbuffer_read j pipe ch).1
  call peek ch = (ringbuffer_peek j pipe ch).1
  call read_advance ch = (ringbuffer_read_advance j pipe ch).1
  call reset ch = (ringbuffer_reset j pipe ch).1

  abbrev pub calls : List Call → Channel j pipe → Channel j pipe
  calls [] ch = ch
  calls (c ∷ cs) ch = calls cs (call c ch)

post_full : (m : ℕ × List ℕ) (b : Mailbox) → b.room < size m → post m b ≡ (false, b)
unfolding post
post_full m b full = rw (lt→ltb b.room (size m) full) refl

abbrev boxed : List (ℕ × List ℕ) → ℕ → Mailbox
boxed ms n = record { messages = ms; room = n }

module _ (j : Ringbuffer) (doc : Documented j) (pipe : Pipe) (is_pipe : IsPipe pipe) where
  open is_pipe use {pending}

  -- A pipe with less than `most` unread bytes takes another one.
  abbrev pub HasRoom : ℕ → Type 0
  HasRoom most = (p : pipe.P) → pending p < most → (pipe.write p).0 ≡ count 1

  -- The bytes in the pipe, and the messages, which are not more.
  pub record IsAwake (ch : Channel j pipe) (p : pipe.P) (b : Mailbox) : Type 0 where
    pub piped : ch.pipefd ≡ some p
    pub stands : Represents j doc ch.rbuf b
    pub told : length b.messages ≤ pending p

  after_write_lem :
      (r : LuaWrite × j.Rb) (ch : Channel j pipe) (fd : Option pipe.P) (x : Bool)
      → r.0 ≡ returned x
      → rbuf_pipe_write j pipe ch.pipefd ≡ (true, fd)
      → after_write j pipe r ch ≡ (value x, record { rbuf = r.1; pipefd = fd })
  after_write_lem (returned true, rb) ch fd true h e = rw e refl
  after_write_lem (returned false, rb) ch fd false h e = rw e refl
  after_write_lem (returned true, rb) ch fd false h e = cc
  after_write_lem (returned false, rb) ch fd true h e = cc
  after_write_lem (raised err, rb) ch fd x h e = cc

  -- A call with its effect on the pipe.
  abbrev Kept : Call → Channel j pipe → pipe.P → Type 0
  Kept c ch p =
      (q : pipe.P) × (b : Mailbox) × IsAwake (call j pipe c ch) q b × (pending q ≤ pending p + 1)

  writes :
      (most : ℕ) (p : pipe.P)
      → HasRoom most
      → pending p < most
      → (q : pipe.P) × (rbuf_pipe_write j pipe (some p) ≡ (true, some q))
        × (pending q ≡ pending p + 1)
  unfolding rbuf_pipe_write
  writes most p room lt =
      let w = syncpipe_write_lem pipe is_pipe p (room p lt) in (_, rw w.0 refl, w.1)

  -- A write that is refused for lack of space puts a byte into the pipe nevertheless, if the pipe has
  -- room for it: the reader is woken although no message was added.
  pub refused_write_wakes :
      (most : ℕ) (tag : ℤ) (d : List ℕ) (ch : Channel j pipe) (p : pipe.P) (b : Mailbox)
      → HasRoom most
      → pending p < most
      → length d < 2 ^ 32
      → b.room < size (to_u32 tag, d)
      → IsAwake ch p b
      → let w = ringbuffer_write j pipe (integer tag) (bytes d) ch in
        (w.0 ≡ value false)
        × Represents j doc w.1.rbuf b
        × ((q : pipe.P) × (w.1.pipefd ≡ some q) × (pending q ≡ pending p + 1))
  unfolding ringbuffer_write
  refused_write_wakes most tag d ch p b room lt short full awake =
      let w = luawrite_refines j doc tag d ch.rbuf b awake.stands short in
      let refused = post_full (to_u32 tag, d) b full in
      let (q, e, n) = writes most p room lt in
      let after =
        after_write_lem (ringbuffer_luawrite j (integer tag) (bytes d) ch.rbuf) ch (some q) false
          (w.0 ∙ ap (λ z. returned z.0) refused) (ap (rbuf_pipe_write j pipe) awake.piped ∙ e) in
      rw after (
        refl,
        subst (λ z. Represents j doc (ringbuffer_luawrite j (integer tag) (bytes d) ch.rbuf).1 z.1)
            refused w.1,
        (q, refl, n),
      )
