-- ===== src/Rbuf.antt =====
-- src/rbuf.c: the ringbuffers that scripts create, each with a pipe if the script asks for one. The
-- results of Malloc, pipe(2) and luaL_checkinteger are arguments.
pub mod Wake
pub mod Reference
pub mod Safety
pub mod Closing
pub mod CApi
mod Tests
use luajack.Prelude.{
  set, ℕ, ◌+◌, ◌-◌, ◌%◌, ◌^◌, Bool, true, false, Option, none, some, List, [], ◌∷◌, ◌==◌, ◌&&◌,
  if◌then◌else◌, ℤ, pos, negsuc, of_i32,
}
use luajack.Ring.{
  Raised, TagArg, DataArg, LuaWrite, returned, raised, ringbuffer_new, ringbuffer_creset,
  ringbuffer_luawrite, ringbuffer_luaread, ringbuffer_luaread_advance,
}
use luajack.Ring.Api.{Ringbuffer}
use luajack.Events.{syncpipe_write, syncpipe_read}
use luajack.Events.Api.{Pipe}
use luajack.Database.{
  Database, Checked, found, bad_argument, invalid_reference, xud_new, xud_check, cancel_valid,
}
use luajack.Database.Api.{Tree}
use luajack.Buffer.{to_size}

pub data Error : Type 0 where
  not_allowed no_pipe no_userdata no_ringbuffer bad_reference not_integer pipe_error : Error
  in_write : Raised → Error

-- `crashed` is an access to a ringbuffer that is not there, or that was freed.
pub data Outcome (A : Type 0) : Type 0 where
  value : A → Outcome A
  error : Error → Outcome A
  crashed : Outcome A

abbrev is_negative : ℤ → Bool
is_negative (pos n) = false
is_negative (negsuc n) = true

-- An address as an `int`, as rbuf_new returns it.
pub int_of : ℕ → ℤ
int_of a = of_i32 (a % 2 ^ 32)

module _ (j : Ringbuffer) (pipe : Pipe) where
  -- `rud->rbuf`, and the pipe unless `rud->pipefd[0]` is -1.
  pub record Channel : Type 0 where
    pub rbuf : j.Rb
    pub pipefd : Option pipe.P

  -- Whether the pipe could be written, and the pipe.
  pub rbuf_pipe_write : Option pipe.P → Bool × Option pipe.P
  rbuf_pipe_write none = (true, none)
  rbuf_pipe_write (some p) =
      let r = syncpipe_write pipe p in (if is_negative r.0 then false else true, some r.1)

  pub rbuf_pipe_read : Option pipe.P → Bool × Option pipe.P
  rbuf_pipe_read none = (true, none)
  rbuf_pipe_read (some p) =
      let r = syncpipe_read pipe p in (if is_negative r.0 then false else true, some r.1)

  -- A result of a ringbuffer function, returned if the pipe could be used.
  abbrev with_pipe : {A : Type 0} → A → j.Rb → Bool × Option pipe.P → Outcome A × Channel
  with_pipe a rb (true, fd) = (value a, record { rbuf = rb; pipefd = fd })
  with_pipe a rb (false, fd) = (error pipe_error, record { rbuf = rb; pipefd = fd })

  abbrev after_write : LuaWrite × j.Rb → Channel → Outcome Bool × Channel
  after_write (returned b, rb) ch = with_pipe b rb (rbuf_pipe_write ch.pipefd)
  after_write (raised e, rb) ch = (error (in_write e), record ch { rbuf = rb })

  pub ringbuffer_write : TagArg → DataArg → Channel → Outcome Bool × Channel
  ringbuffer_write tag d ch = after_write (ringbuffer_luawrite j tag d ch.rbuf) ch

  pub ringbuffer_read : Channel → Outcome (Option (ℤ × List ℕ)) × Channel
  ringbuffer_read ch =
      let r = ringbuffer_luaread j true ch.rbuf in with_pipe r.0 r.1 (rbuf_pipe_read ch.pipefd)

  pub ringbuffer_peek : Channel → Outcome (Option (ℤ × List ℕ)) × Channel
  ringbuffer_peek ch =
      let r = ringbuffer_luaread j false ch.rbuf in (value r.0, record ch { rbuf = r.1 })

  pub ringbuffer_read_advance : Channel → Outcome Bool × Channel
  ringbuffer_read_advance ch =
      let r = ringbuffer_luaread_advance j ch.rbuf in with_pipe r.0 r.1 (rbuf_pipe_read ch.pipefd)

  pub ringbuffer_reset : Channel → Outcome Unit × Channel
  ringbuffer_reset ch = (value tt, record ch { rbuf = ringbuffer_creset j ch.rbuf })

  -- What ringbuffer_getfd looks at: whether there is a pipe.
  pub ringbuffer_getfd : Channel → Outcome Bool × Channel
  ringbuffer_getfd ch = elim ch.pipefd [ none ↦ (value false, ch) | some p ↦ (value true, ch) ]

module _ (t : Tree) (j : Ringbuffer) (pipe : Pipe) where
  -- The database of rud.c with the fields of its entries, by address: the ringbuffer (`none` where it
  -- is NULL or freed) and the key of the client; and the number of pipes that are open.
  pub record Rbufs : Type 0 where
    pub db : Database t
    pub chan : ℕ → Option (Channel j pipe)
    pub cud : ℕ → ℕ
    pub pipes : ℕ

  -- syncpipe_new, if a pipe is asked for: `none` if it fails.
  abbrev new_pipe : Bool → Option pipe.P → Option (Option pipe.P)
  new_pipe false made = some none
  new_pipe true none = none
  new_pipe true (some p) = some (some p)

  abbrev count_of : Option pipe.P → ℕ
  count_of none = 0
  count_of (some p) = 1

  abbrev new_ring : ℕ → Option pipe.P → Option j.Rb → Rbufs → Outcome ℤ × Rbufs
  new_ring a fd none st = (
    error no_ringbuffer,
    record st { db = cancel_valid t a st.db; pipes = st.pipes - count_of fd },
  )
  new_ring a fd (some rb) st = (
    value (int_of a),
    record st { chan = set a (some (record { rbuf = rb; pipefd = fd })) st.chan },
  )

  abbrev new_rud :
      ℕ → Option j.Rb → Option pipe.P → Option ℕ × Database t → Rbufs → Outcome ℤ × Rbufs
  new_rud client ring fd (none, db) st = (error no_userdata, record st { db = db })
  new_rud client ring fd (some a, db) st =
      new_ring a fd ring
        (record st { db = db; chan = set a none st.chan; cud = set a client st.cud })

  abbrev new_piped : ℕ → Option j.Rb → Option ℕ → Option (Option pipe.P) → Rbufs → Outcome ℤ × Rbufs
  new_piped client ring addr none st = (error no_pipe, st)
  new_piped client ring addr (some fd) st =
      new_rud client ring fd (xud_new t addr st.db) (record st { pipes = st.pipes + count_of fd })

  -- rbuf_new for the client with the key `client`, with what pipe(2) and Malloc give.
  pub rbuf_new : ℕ → ℕ → Bool → Bool → Option pipe.P → Option ℕ → Rbufs → Outcome ℤ × Rbufs
  rbuf_new client sz mlock usepipe made addr st =
      new_piped client (ringbuffer_new j sz mlock) addr (new_pipe usepipe made) st

  abbrev sized_ring :
      ℕ → Option ℤ → Bool → Bool → Option pipe.P → Option ℕ → Rbufs → Outcome ℤ × Rbufs
  sized_ring client none mlock usepipe made addr st = (error not_integer, st)
  sized_ring client (some sz) mlock usepipe made addr st =
      rbuf_new client (to_size sz) mlock usepipe made addr st

  -- The function of scripts, with what luajack_checkcreate, cud_check and luaL_checkinteger give.
  pub ringbuffer :
      Bool → Checked → Option ℤ → Bool → Bool → Option pipe.P → Option ℕ → Rbufs → Outcome ℤ × Rbufs
  ringbuffer false client sz mlock usepipe made addr st = (error not_allowed, st)
  ringbuffer true bad_argument sz mlock usepipe made addr st = (error not_integer, st)
  ringbuffer true invalid_reference sz mlock usepipe made addr st = (error bad_reference, st)
  ringbuffer true (found client) sz mlock usepipe made addr st =
      sized_ring client sz mlock usepipe made addr st

  abbrev as_key : Option ℤ → Option ℕ
  as_key none = none
  as_key (some z) = some (to_size z)

  pub rud_check : Option ℤ → Rbufs → Checked
  rud_check z st = xud_check t (as_key z) st.db

  abbrev on_channel :
      {A : Type 0}
      → (Channel j pipe → Outcome A × Channel j pipe)
      → ℕ
      → Option (Channel j pipe)
      → Rbufs
      → Outcome A × Rbufs
  on_channel f a none st = (crashed, st)
  on_channel f a (some ch) st = let r = f ch in (r.0, record st { chan = set a (some r.1) st.chan })

  abbrev on_checked :
      {A : Type 0}
      → (Channel j pipe → Outcome A × Channel j pipe)
      → Checked
      → Rbufs
      → Outcome A × Rbufs
  on_checked f (found a) st = on_channel f a (st.chan a) st
  on_checked f bad_argument st = (error not_integer, st)
  on_checked f invalid_reference st = (error bad_reference, st)

  -- A function of a script, called with a reference.
  pub on_rud :
      {A : Type 0}
      → (Channel j pipe → Outcome A × Channel j pipe)
      → Option ℤ
      → Rbufs
      → Outcome A × Rbufs
  on_rud f z st = on_checked f (rud_check z st) st

  -- jack_ringbuffer_free of a ringbuffer that is NULL or was freed crashes.
  abbrev freed_ring : Option (Channel j pipe) → Outcome Unit
  freed_ring none = crashed
  freed_ring (some ch) = value tt

  pub rbuf_free : ℕ → Rbufs → Outcome Unit × Rbufs
  rbuf_free a st =
      (freed_ring (st.chan a), record st { db = cancel_valid t a st.db; chan = set a none st.chan })

  -- The outcome of a call that another one follows.
  abbrev followed_by : Outcome Unit → Outcome Unit × Rbufs → Outcome Unit × Rbufs
  followed_by (value u) next = next
  followed_by (error e) next = (error e, next.1)
  followed_by crashed next = (crashed, next.1)

  -- The loop over the entries that rud_first and rud_next give one after the other.
  pub rbuf_free_all : ℕ → List ℕ → Rbufs → Outcome Unit × Rbufs
  rbuf_free_all client [] st = (value tt, st)
  rbuf_free_all client (a ∷ rest) st =
      let freed =
        if st.db.valid a && (st.cud a == client) then rbuf_free a st else (value tt, st) in
      followed_by freed.0 (rbuf_free_all client rest freed.1)
