-- ===== src/Rbuf/Safety.antt =====
-- No call of a script reaches a ringbuffer that is not there or was freed.
use luajack.Prelude.{
  set, ℕ, ◌≡◌, refl, sym, ap, ◌∙◌, Bool, true, false, Option, none, some, List, [], ◌∷◌, ◌==◌, ◌&&◌,
  if◌then◌else◌, if_both, ℤ,
}
use luajack.Ring.{TagArg, DataArg, LuaWrite, returned, raised}
use luajack.Ring.Api.{Ringbuffer}
use luajack.Events.Api.{Pipe}
use luajack.Database.{Database, Checked, found, bad_argument, invalid_reference}
use luajack.Database.Api.{Tree}
use luajack.Database.Marks.{marked, new_valid, cancel_lem, found_valid}
use luajack.Rbuf.{
  Outcome, value, error, crashed, Channel, Rbufs, ringbuffer, rbuf_new, on_rud, rbuf_free_all,
  freed_ring, rbuf_free, rud_check, new_rud, new_piped, with_pipe, after_write, rbuf_pipe_write,
  rbuf_pipe_read, on_channel, as_key, on_checked, ringbuffer_write, ringbuffer_read,
  ringbuffer_peek, ringbuffer_read_advance, ringbuffer_reset,
}

abbrev pub has_crashed : {A : Type 0} → Outcome A → Bool
has_crashed (value a) = false
has_crashed (error e) = false
has_crashed crashed = true

-- A function called with a reference.
pub data Method : Type 0 where
  write : TagArg → DataArg → Method
  read peek read_advance reset : Method

module _ (t : Tree) (j : Ringbuffer) (pipe : Pipe) where
  -- What scripts do, and the closure of a client with the entries that the loop visits.
  pub data Op : Type 0 where
    create : Bool → Checked → Option ℤ → Bool → Bool → Option pipe.P → Option ℕ → Op
    method : Method → Option ℤ → Op
    free_all : ℕ → List ℕ → Op

  abbrev pub finish : {A : Type 0} → Outcome A × Rbufs t j pipe → Bool × Rbufs t j pipe
  finish r = (has_crashed r.0, r.1)

  abbrev pub do_method : Method → Option ℤ → Rbufs t j pipe → Bool × Rbufs t j pipe
  do_method (write tag d) z st = finish (on_rud t j pipe (ringbuffer_write j pipe tag d) z st)
  do_method read z st = finish (on_rud t j pipe (ringbuffer_read j pipe) z st)
  do_method peek z st = finish (on_rud t j pipe (ringbuffer_peek j pipe) z st)
  do_method read_advance z st = finish (on_rud t j pipe (ringbuffer_read_advance j pipe) z st)
  do_method reset z st = finish (on_rud t j pipe (ringbuffer_reset j pipe) z st)

  -- Whether the operation crashed, and what it leaves.
  abbrev pub do_op : Op → Rbufs t j pipe → Bool × Rbufs t j pipe
  do_op (create allowed client sz mlock usepipe made addr) st =
      finish (ringbuffer t j pipe allowed client sz mlock usepipe made addr st)
  do_op (method m z) st = do_method m z st
  do_op (free_all client visited) st = finish (rbuf_free_all t j pipe client visited st)

  -- Every valid entry has its ringbuffer.
  abbrev pub IsSound : Rbufs t j pipe → Type 0
  IsSound st = (a : ℕ) → st.db.valid a ≡ true → (ch : Channel j pipe) × (st.chan a ≡ some ch)

  abbrev IsSome : Option (Channel j pipe) → Type 0
  IsSome o = (ch : Channel j pipe) × (o ≡ some ch)

  drop_at :
      (here valid : Bool) (o : Option (Channel j pipe))
      → (if here then false else valid) ≡ true
      → (valid ≡ true → IsSome o)
      → IsSome (if here then none else o)
  drop_at true valid o v h = cc
  drop_at false valid o v h = h v

  drop_new :
      (here marked valid : Bool) (o : Option (Channel j pipe))
      → (if here then false else marked) ≡ true
      → (marked ≡ true → (if here then true else valid) ≡ true)
      → (valid ≡ true → IsSome o)
      → IsSome (if here then none else o)
  drop_new true marked valid o v m h = cc
  drop_new false marked valid o v m h = h (m v)

  add_at :
      (here valid : Bool) (o : Option (Channel j pipe)) (ch : Channel j pipe)
      → (if here then true else valid) ≡ true
      → (valid ≡ true → IsSome o)
      → IsSome (if here then some ch else (if here then none else o))
  add_at true valid o ch v h = (ch, refl)
  add_at false valid o ch v h = h v

  -- The outcome is no crash, and the entries stay sound.
  abbrev pub Safe : {A : Type 0} → Outcome A × Rbufs t j pipe → Type 0
  Safe r = (has_crashed r.0 ≡ false) × IsSound r.1

  set-IsSome :
      (a i : ℕ) (ch : Channel j pipe) (chan : ℕ → Option (Channel j pipe))
      → (x : Channel j pipe) × (chan i ≡ some x)
      → (x : Channel j pipe) × (set a (some ch) chan i ≡ some x)
  set-IsSome a i ch chan old =
      if_both (λ o. (x : Channel j pipe) × (o ≡ some x)) (i == a) (ch, refl) old

  -- The functions called with a reference.
  pub on_channel-Safe :
      {A : Type 0} (f : Channel j pipe → Outcome A × Channel j pipe)
      → ((ch : Channel j pipe) → has_crashed (f ch).0 ≡ false)
      → (a : ℕ) (st : Rbufs t j pipe) → IsSound st
      → (ch : Channel j pipe) × (st.chan a ≡ some ch)
      → Safe (on_channel t j pipe f a (st.chan a) st)
  on_channel-Safe f calm a st sound (ch, e) =
      rw e (calm ch, λ i v. set-IsSome a i (f ch).1 st.chan (sound i v))

  on_checked-Safe :
      {A : Type 0} (f : Channel j pipe → Outcome A × Channel j pipe)
      → ((ch : Channel j pipe) → has_crashed (f ch).0 ≡ false)
      → (c : Checked) (st : Rbufs t j pipe) → IsSound st
      → ((a : ℕ) → c ≡ found a → st.db.valid a ≡ true)
      → Safe (on_checked t j pipe f c st)
  on_checked-Safe f calm (found a) st sound is_valid =
      on_channel-Safe f calm a st sound (sound a (is_valid a refl))
  on_checked-Safe f calm bad_argument st sound is_valid = (refl, sound)
  on_checked-Safe f calm invalid_reference st sound is_valid = (refl, sound)

  on_rud-Safe :
      {A : Type 0} (f : Channel j pipe → Outcome A × Channel j pipe)
      → ((ch : Channel j pipe) → has_crashed (f ch).0 ≡ false)
      → (z : Option ℤ) (st : Rbufs t j pipe) → IsSound st
      → Safe (on_rud t j pipe f z st)
  unfolding on_rud rud_check
  on_rud-Safe f calm z st sound =
      on_checked-Safe f calm (rud_check t j pipe z st) st sound
        (λ a e. found_valid t (as_key t j pipe z) a st.db e)

  with_pipe_calm :
      {A : Type 0} (a : A) (rb : j.Rb) (w : Bool × Option pipe.P)
      → has_crashed (with_pipe j pipe a rb w).0 ≡ false
  with_pipe_calm a rb (true, fd) = refl
  with_pipe_calm a rb (false, fd) = refl

  after_write_calm :
      (r : LuaWrite × j.Rb) (ch : Channel j pipe) → has_crashed (after_write j pipe r ch).0 ≡ false
  after_write_calm (returned b, rb) ch = with_pipe_calm b rb (rbuf_pipe_write j pipe ch.pipefd)
  after_write_calm (raised e, rb) ch = refl

  write_calm :
      (tag : TagArg) (d : DataArg) (ch : Channel j pipe)
      → has_crashed (ringbuffer_write j pipe tag d ch).0 ≡ false
  unfolding ringbuffer_write
  write_calm tag d ch = after_write_calm _ ch

  read_calm : (ch : Channel j pipe) → has_crashed (ringbuffer_read j pipe ch).0 ≡ false
  unfolding ringbuffer_read
  read_calm ch = with_pipe_calm _ _ (rbuf_pipe_read j pipe ch.pipefd)

  peek_calm : (ch : Channel j pipe) → has_crashed (ringbuffer_peek j pipe ch).0 ≡ false
  unfolding ringbuffer_peek
  peek_calm ch = refl

  read_advance_calm :
      (ch : Channel j pipe) → has_crashed (ringbuffer_read_advance j pipe ch).0 ≡ false
  unfolding ringbuffer_read_advance
  read_advance_calm ch = with_pipe_calm _ _ (rbuf_pipe_read j pipe ch.pipefd)

  reset_calm : (ch : Channel j pipe) → has_crashed (ringbuffer_reset j pipe ch).0 ≡ false
  unfolding ringbuffer_reset
  reset_calm ch = refl

  -- The creation of a ringbuffer, on each of its paths.
  new_rud-Safe :
      (client : ℕ) (ring : Option j.Rb) (fd : Option pipe.P) (u : Option ℕ × Database t)
      (st : Rbufs t j pipe)
      → IsSound st
      → ((i : ℕ) → u.1.valid i ≡ true → marked u.0 st.db.valid i ≡ true)
      → Safe (new_rud t j pipe client ring fd u st)
  new_rud-Safe client ring fd (none, db) st sound m = (refl, λ i v. sound i (m i v))
  new_rud-Safe client none fd (some a, db) st sound m = (
    refl,
    λ i v.
        drop_new (i == a) (db.valid i) (st.db.valid i) (st.chan i) (sym (cancel_lem t a i db) ∙ v)
          (m i) (sound i),
  )
  new_rud-Safe client (some rb) fd (some a, db) st sound m =
      (refl, λ i v. add_at (i == a) (st.db.valid i) (st.chan i) _ (m i v) (sound i))

  new_piped-Safe :
      (client : ℕ) (ring : Option j.Rb) (addr : Option ℕ) (fd : Option (Option pipe.P))
      (st : Rbufs t j pipe)
      → IsSound st
      → Safe (new_piped t j pipe client ring addr fd st)
  new_piped-Safe client ring addr none st sound = (refl, sound)
  new_piped-Safe client ring addr (some fd) st sound =
      new_rud-Safe client ring fd _ _ sound (new_valid t addr st.db)

  ringbuffer-Safe :
      (allowed : Bool) (client : Checked) (sz : Option ℤ) (mlock usepipe : Bool)
      (made : Option pipe.P) (addr : Option ℕ) (st : Rbufs t j pipe)
      → IsSound st
      → Safe (ringbuffer t j pipe allowed client sz mlock usepipe made addr st)
  unfolding ringbuffer rbuf_new
  ringbuffer-Safe false client sz mlock usepipe made addr st sound = (refl, sound)
  ringbuffer-Safe true bad_argument sz mlock usepipe made addr st sound = (refl, sound)
  ringbuffer-Safe true invalid_reference sz mlock usepipe made addr st sound = (refl, sound)
  ringbuffer-Safe true (found client) none mlock usepipe made addr st sound = (refl, sound)
  ringbuffer-Safe true (found client) (some sz) mlock usepipe made addr st sound =
      new_piped-Safe client _ addr _ st sound

  IsSome-calm : (o : Option (Channel j pipe)) → IsSome o → freed_ring t j pipe o ≡ value tt
  IsSome-calm none (ch, e) = cc
  IsSome-calm (some ch) h = refl

  -- A round of the loop of rbuf_free_all frees a ringbuffer that is there, or nothing.
  abbrev IsCalm : Outcome Unit × Rbufs t j pipe → Type 0
  IsCalm r = (r.0 ≡ value tt) × IsSound r.1

  rbuf_free-IsCalm :
      (a : ℕ) (st : Rbufs t j pipe)
      → IsSound st
      → st.db.valid a ≡ true
      → IsCalm (rbuf_free t j pipe a st)
  unfolding rbuf_free
  rbuf_free-IsCalm a st sound is_valid = (
    IsSome-calm (st.chan a) (sound a is_valid),
    λ i v.
        drop_at (i == a) (st.db.valid i) (st.chan i) (sym (cancel_lem t a i st.db) ∙ v) (sound i),
  )

  round-IsCalm :
      (here own : Bool) (freed : Outcome Unit × Rbufs t j pipe) (st : Rbufs t j pipe)
      → (here ≡ true → IsCalm freed)
      → IsSound st
      → IsCalm (if here && own then freed else (value tt, st))
  round-IsCalm true true freed st h sound = h refl
  round-IsCalm true false freed st h sound = (refl, sound)
  round-IsCalm false own freed st h sound = (refl, sound)

  rbuf_free_all-IsCalm :
      (client : ℕ) (visited : List ℕ) (st : Rbufs t j pipe)
      → IsSound st
      → IsCalm (rbuf_free_all t j pipe client visited st)
  unfolding rbuf_free_all
  rbuf_free_all-IsCalm client [] st sound = (refl, sound)
  rbuf_free_all-IsCalm client (a ∷ rest) st sound =
      let (calm, sound2) =
        round-IsCalm (st.db.valid a) (st.cud a == client) (rbuf_free t j pipe a st) st
          (rbuf_free-IsCalm a st sound) sound in
      rw calm (rbuf_free_all-IsCalm client rest _ sound2)

  pub do_op-Safe :
      (o : Op) (st : Rbufs t j pipe)
      → IsSound st
      → ((do_op o st).0 ≡ false) × IsSound (do_op o st).1
  do_op-Safe (create allowed client sz mlock usepipe made addr) st sound =
      ringbuffer-Safe allowed client sz mlock usepipe made addr st sound
  do_op-Safe (method (write tag d) z) st sound = on_rud-Safe _ (write_calm tag d) z st sound
  do_op-Safe (method read z) st sound = on_rud-Safe _ read_calm z st sound
  do_op-Safe (method peek z) st sound = on_rud-Safe _ peek_calm z st sound
  do_op-Safe (method read_advance z) st sound = on_rud-Safe _ read_advance_calm z st sound
  do_op-Safe (method reset z) st sound = on_rud-Safe _ reset_calm z st sound
  do_op-Safe (free_all client visited) st sound =
      let (calm, sound2) = rbuf_free_all-IsCalm client visited st sound in
      (ap has_crashed calm, sound2)
