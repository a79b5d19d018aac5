-- ===== src/Rbuf/CApi.antt =====
-- src/luajack.c: the ringbuffers of C modules, called with the objects that luajack_checkringbuffer gave
-- them. A value returned after luajack_error() is that of the code, 0 or NULL.
use luajack.Prelude.{
  ℕ, ◌^◌, ◌<◌, ◌≤◌, ◌≡◌, refl, ap, ◌∙◌, subst, Bool, true, false, Option, none, some, List, [], ◌∷◌,
  length, if◌then◌else◌, le→ltb, if_true, eq→==, ◌==◌,
}
use luajack.Ring.{
  CRead, no_message, ringbuffer_cwrite, ringbuffer_cread, ringbuffer_cread_advance,
  ringbuffer_creset,
}
use luajack.Ring.Api.{Ringbuffer, Documented}
use luajack.Ring.Mailbox.{Mailbox, post, size, Represents}
use luajack.Ring.Refine.{cwrite_refines}
use luajack.Events.Api.{Pipe}
use luajack.Database.Api.{Tree}
use luajack.Rbuf.{Outcome, value, Channel, Rbufs, on_channel}
use luajack.Rbuf.Safety.{Op, do_op, IsSound, do_op-Safe, on_channel-Safe, finish, Safe}

-- The LUAJACK_T codes.
pub data ObjType : Type 0 where
  client port thread ringbuffer : ObjType

abbrev same_type : ObjType → ObjType → Bool
same_type client client = true
same_type port port = true
same_type thread thread = true
same_type ringbuffer ringbuffer = true
same_type _ _ = false

-- `luajack_t`: the type, and the address of the entry.
pub record Obj : Type 0 where
  pub type : ObjType
  pub xud : ℕ

-- GETXUD, with the marks of the entries; the pointer is NULL for the first argument's `none`.
unfoldable pub get_xud : ObjType → (ℕ → Bool) → Option Obj → Option ℕ
get_xud ot is_valid none = none
get_xud ot is_valid (some o) =
    if same_type o.type ot then (if is_valid o.xud then some o.xud else none) else none

module _ (t : Tree) (j : Ringbuffer) (pipe : Pipe) where
  -- A function on `rud->rbuf`.
  abbrev on_rbuf : {A : Type 0} → (j.Rb → A × j.Rb) → Channel j pipe → Outcome A × Channel j pipe
  on_rbuf f ch = let r = f ch.rbuf in (value r.0, record ch { rbuf = r.1 })

  abbrev on_xud :
      {A : Type 0} → A → (j.Rb → A × j.Rb) → Option ℕ → Rbufs t j pipe → Outcome A × Rbufs t j pipe
  on_xud zero f none st = (value zero, st)
  on_xud zero f (some a) st = on_channel t j pipe (on_rbuf f) a (st.chan a) st

  abbrev on_object :
      {A : Type 0}
      → A
      → (j.Rb → A × j.Rb)
      → Option Obj
      → Rbufs t j pipe
      → Outcome A × Rbufs t j pipe
  on_object zero f obj st = on_xud zero f (get_xud ringbuffer st.db.valid obj) st

  pub luajack_ringbuffer_write :
      Option Obj → ℕ → Option (List ℕ) → Rbufs t j pipe → Outcome Bool × Rbufs t j pipe
  luajack_ringbuffer_write obj tag d st = on_object false (ringbuffer_cwrite j tag d) obj st

  pub luajack_ringbuffer_read :
      Option Obj → List ℕ → Rbufs t j pipe → Outcome CRead × Rbufs t j pipe
  luajack_ringbuffer_read obj buf st = on_object no_message (ringbuffer_cread j true buf) obj st

  pub luajack_ringbuffer_peek :
      Option Obj → List ℕ → Rbufs t j pipe → Outcome CRead × Rbufs t j pipe
  luajack_ringbuffer_peek obj buf st = on_object no_message (ringbuffer_cread j false buf) obj st

  pub luajack_ringbuffer_read_advance : Option Obj → Rbufs t j pipe → Outcome Bool × Rbufs t j pipe
  luajack_ringbuffer_read_advance obj st = on_object false (ringbuffer_cread_advance j) obj st

  pub luajack_ringbuffer_reset : Option Obj → Rbufs t j pipe → Outcome Unit × Rbufs t j pipe
  luajack_ringbuffer_reset obj st = on_object tt (λ rb. (tt, ringbuffer_creset j rb)) obj st

  pub data CCall : Type 0 where
    write : ℕ → Option (List ℕ) → CCall
    read peek : List ℕ → CCall
    read_advance reset : CCall

  abbrev pub c_call : CCall → Option Obj → Rbufs t j pipe → Bool × Rbufs t j pipe
  c_call (write tag d) obj st = finish t j pipe (luajack_ringbuffer_write obj tag d st)
  c_call (read buf) obj st = finish t j pipe (luajack_ringbuffer_read obj buf st)
  c_call (peek buf) obj st = finish t j pipe (luajack_ringbuffer_peek obj buf st)
  c_call read_advance obj st = finish t j pipe (luajack_ringbuffer_read_advance obj st)
  c_call reset obj st = finish t j pipe (luajack_ringbuffer_reset obj st)

  -- What scripts and C modules do, in the order in which it happens.
  pub data Step : Type 0 where
    lua : Op t j pipe → Step
    c : CCall → Option Obj → Step

  abbrev pub do_step : Step → Rbufs t j pipe → Bool × Rbufs t j pipe
  do_step (lua o) st = do_op t j pipe o st
  do_step (c call obj) st = c_call call obj st

  abbrev pub crashes : List Step → Rbufs t j pipe → Bool
  crashes [] st = false
  crashes (s ∷ ss) st =
      let r = do_step s st in let rest = crashes ss r.1 in if r.0 then true else rest

  -- An entry that get_xud gives is valid.
  valid_if :
      (same valid : Bool) (x a : ℕ)
      → (if same then (if valid then some x else none) else none) ≡ some a
      → (x ≡ a) × (valid ≡ true)
  valid_if true true x a h = (cc, refl)
  valid_if true false x a h = cc
  valid_if false valid x a h = cc

  get_xud_valid :
      (ot : ObjType) (is_valid : ℕ → Bool) (obj : Option Obj) (a : ℕ)
      → get_xud ot is_valid obj ≡ some a
      → is_valid a ≡ true
  unfolding get_xud
  get_xud_valid ot is_valid none a h = cc
  get_xud_valid ot is_valid (some o) a h =
      let v = valid_if (same_type o.type ot) (is_valid o.xud) o.xud a h in
      subst (λ x. is_valid x ≡ true) v.0 v.1

  on_xud-Safe :
      {A : Type 0} (zero : A) (f : j.Rb → A × j.Rb) (x : Option ℕ) (st : Rbufs t j pipe)
      → ((a : ℕ) → x ≡ some a → st.db.valid a ≡ true)
      → IsSound t j pipe st
      → Safe t j pipe (on_xud zero f x st)
  on_xud-Safe zero f none st h sound = (refl, sound)
  on_xud-Safe zero f (some a) st h sound =
      on_channel-Safe t j pipe (on_rbuf f) (λ ch. refl) a st sound (sound a (h a refl))

  on_object-Safe :
      {A : Type 0} (zero : A) (f : j.Rb → A × j.Rb) (obj : Option Obj) (st : Rbufs t j pipe)
      → IsSound t j pipe st
      → Safe t j pipe (on_object zero f obj st)
  on_object-Safe zero f obj st sound =
      on_xud-Safe zero f _ st (get_xud_valid ringbuffer st.db.valid obj) sound

  do_step-Safe :
      (s : Step) (st : Rbufs t j pipe)
      → IsSound t j pipe st
      → ((do_step s st).0 ≡ false) × IsSound t j pipe (do_step s st).1
  unfolding luajack_ringbuffer_write luajack_ringbuffer_read luajack_ringbuffer_peek
      luajack_ringbuffer_read_advance luajack_ringbuffer_reset
  do_step-Safe (lua o) st sound = do_op-Safe t j pipe o st sound
  do_step-Safe (c (write tag d) obj) st sound = on_object-Safe _ _ obj st sound
  do_step-Safe (c (read buf) obj) st sound = on_object-Safe _ _ obj st sound
  do_step-Safe (c (peek buf) obj) st sound = on_object-Safe _ _ obj st sound
  do_step-Safe (c read_advance obj) st sound = on_object-Safe _ _ obj st sound
  do_step-Safe (c reset obj) st sound = on_object-Safe _ _ obj st sound

  -- Where every valid entry has its ringbuffer, no sequence of what scripts do (creations, whatever
  -- pipe(2), Malloc and JACK answer, calls with any references, closures of clients) and of the calls
  -- of C modules, with any objects, reaches a ringbuffer that is not there or was freed.
  pub steps_never_crash :
      (ss : List Step) (st : Rbufs t j pipe) → IsSound t j pipe st → crashes ss st ≡ false
  steps_never_crash [] st sound = refl
  steps_never_crash (s ∷ ss) st sound =
      let (calm, sound2) = do_step-Safe s st sound in
      rw calm (steps_never_crash ss (do_step s st).1 sound2)

post_fits : (m : ℕ × List ℕ) (b : Mailbox) → size m ≤ b.room → (post m b).0 ≡ true
unfolding post
post_fits m b fits = rw (le→ltb b.room (size m) fits) refl

module _ (t : Tree) (j : Ringbuffer) (doc : Documented j) (pipe : Pipe) where
  -- A C module's write of a message that fits the free bytes, to a ringbuffer that is valid, adds the
  -- message and leaves the pipe as it was: a script that waits for the pipe is not woken.
  pub c_write_wakes_nobody :
      (obj : Option Obj) (a tag : ℕ) (d : List ℕ) (st : Rbufs t j pipe) (ch : Channel j pipe)
      (b : Mailbox)
      → get_xud ringbuffer st.db.valid obj ≡ some a
      → st.chan a ≡ some ch
      → Represents j doc ch.rbuf b
      → tag < 2 ^ 32
      → length d < 2 ^ 32
      → size (tag, d) ≤ b.room
      → let r = luajack_ringbuffer_write t j pipe obj tag (some d) st in
        (r.0 ≡ value true)
        × ((after : Channel j pipe) × (r.1.chan a ≡ some after)
            × Represents j doc after.rbuf (post (tag, d) b).1
            × (after.pipefd ≡ ch.pipefd))
  unfolding luajack_ringbuffer_write
  c_write_wakes_nobody obj a tag d st ch b found there rep small short fits =
      let w = cwrite_refines j doc tag d ch.rbuf b rep small short in
      let after : Channel j pipe = record ch {
        rbuf = (ringbuffer_cwrite j tag (some d) ch.rbuf).1;
      } in
      rw (found, there)
        (
          ap value (w.0 ∙ post_fits (tag, d) b fits),
          (after, if_true (a == a) (some after) (st.chan a) (eq→== a a refl), w.1, refl),
        )
