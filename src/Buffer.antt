-- ===== src/Buffer.antt =====
-- src/buffer.c: the reading and writing of the buffers of audio ports, and what it shares with custom
-- and MIDI ports. A buffer is the
-- list of its samples; an access outside of it gives `overrun`. What lua_tonumber makes of an argument,
-- the buffer that jack_port_get_buffer gives and the growth of the Lua stack are arguments. Positions
-- stay below a 32-bit count of frames, so they do not wrap.
pub mod Custom
pub mod Memory
pub mod Audio
pub mod Safety
pub mod Copying
pub mod Session
pub mod Midi
mod Tests
use luajack.Prelude.{
  ℕ, zero, suc, ◌+◌, ◌-◌, ◌%◌, ◌^◌, Bool, true, false, Option, none, some, List, [], ◌∷◌, ◌++◌,
  length, get_elem?, take, drop, replicate, ltb, leb, ◌==◌, if◌then◌else◌, ℤ, pos, negsuc, to_u32,
}

pub data Error : Type 0 where
  not_in_process already_retrieved no_port_buffer no_buffer not_output not_input out_of_range :
      Error
  bad_argument stack_full invalid_sample invalid_source source_not_input target_not_output : Error
  empty_data : Error

-- A C function returns values beside the port's state, or raises a Lua error.
pub data Outcome (P A : Type 0) : Type 0 where
  returned : A → P → Outcome P A
  raised : Error → P → Outcome P A
  overrun : Outcome P A

pub data Kind : Type 0 where
  audio midi custom : Kind

-- `struct luajack_pud_s`, over the type of the buffer, with what is used of its client: whether it is
-- in the process callback, and `cud->nframes`.
pub record Pud (B : Type 0) : Type 0 where
  pub kind : Kind
  pub input : Bool
  pub output : Bool
  pub in_process : Bool
  pub period : ℕ
  pub buf : Option B
  pub nframes : ℕ
  pub bufp : ℕ

-- An optional integer argument.
pub data IntArg : Type 0 where
  absent : IntArg
  integer : ℤ → IntArg
  not_integer : IntArg

-- luaL_optinteger, converted to 32 bits; `none` is its error.
abbrev pub opt_u32 : IntArg → ℕ → Option ℕ
opt_u32 absent n = some n
opt_u32 (integer z) n = some (to_u32 z)
opt_u32 not_integer n = none

-- The conversion of a lua_Integer to size_t.
abbrev pub to_size : ℤ → ℕ
to_size (pos n) = n % 2 ^ 64
to_size (negsuc n) = 2 ^ 64 - (n % 2 ^ 64 + 1)

abbrev pub smaller : ℕ → ℕ → ℕ
smaller a b = if leb a b then a else b

abbrev pub check : {P A : Type 0} → Bool → Error → P → Outcome P A → Outcome P A
check ok e p k = if ok then k else raised e p

abbrev pub or_raise : {P A B : Type 0} → Option B → Error → P → (B → Outcome P A) → Outcome P A
or_raise none e p k = raised e p
or_raise (some b) e p k = k b

abbrev pub avail : {B : Type 0} → Pud B → ℕ
avail pud = if leb pud.bufp pud.nframes then pud.nframes - pud.bufp else 0

-- buffer_drop_all, for one of the client's ports.
unfoldable pub buffer_drop : {B : Type 0} → Pud B → Pud B
buffer_drop pud = record pud { buf = none; nframes = 0; bufp = 0 }

-- CheckProcess, with which the functions called by scripts begin.
pub port_function : {B A : Type 0} → (Pud B → Outcome (Pud B) A) → Pud B → Outcome (Pud B) A
port_function f pud = check pud.in_process not_in_process pud (f pud)

abbrev pub is_audio : Kind → Bool
is_audio audio = true
is_audio midi = false
is_audio custom = false

abbrev pub is_midi : Kind → Bool
is_midi audio = false
is_midi midi = true
is_midi custom = false

module _ {S : Type 0} where
  -- The buffer with one sample replaced.
  abbrev pub set : List S → ℕ → S → List S
  set [] i v = []
  set (x ∷ xs) zero v = v ∷ xs
  set (x ∷ xs) (suc i) v = x ∷ set xs i v

  abbrev take_given : Option (List S) → Pud (List S) → Outcome (Pud (List S)) ℕ
  take_given none p = raised no_port_buffer (record p { nframes = p.period })
  take_given (some b) p =
      returned p.period (record p { buf = some b; nframes = p.period; bufp = 0 })

  abbrev retrieve : Option (List S) → Option (List S) → Pud (List S) → Outcome (Pud (List S)) ℕ
  retrieve (some b) given p = raised already_retrieved p
  retrieve none given p = take_given given p

  -- GetBuffer, for a port that is not a MIDI port; `given` is what jack_port_get_buffer returns.
  pub get_buffer : Option (List S) → Pud (List S) → Outcome (Pud (List S)) ℕ
  get_buffer given pud = retrieve pud.buf given pud

  abbrev store_next : (List S → Option (List S × ℕ)) → S → List S → ℕ → ℕ → ℕ → Option (List S × ℕ)
  store_next rest v buf at space n =
      if ltb n space
      then (if ltb (at + n) (length buf) then rest (set buf (at + n) v) else none)
      else some (buf, n)

  -- The loop of AudioWrite over its arguments, `none` for one that is not a number: the buffer and the
  -- number of samples written.
  pub store_samples : List (Option S) → List S → ℕ → ℕ → ℕ → Option (List S × ℕ)
  store_samples [] buf at space n = some (buf, n)
  store_samples (none ∷ args) buf at space n = some (buf, n)
  store_samples (some v ∷ args) buf at space n =
      store_next (λ b. store_samples args b at space (suc n)) v buf at space n

  abbrev stored : Pud (List S) → Option (List S × ℕ) → Outcome (Pud (List S)) ℕ
  stored pud none = overrun
  stored pud (some (b, n)) = returned n (record pud { buf = some b; bufp = pud.bufp + n })

  pub audio_write : List (Option S) → Pud (List S) → Outcome (Pud (List S)) ℕ
  audio_write args pud = or_raise pud.buf no_buffer pud (λ buf.
      check pud.output not_output pud (stored pud (store_samples args buf pud.bufp (avail pud) 0)))

  -- memset of `n` samples from the position `at`
  pub fill : S → List S → ℕ → ℕ → Option (List S × ℕ)
  fill silence buf at n =
      if n == 0
      then some (buf, n)
      else if ltb (length buf) (at + n)
      then none
      else some (take at buf ++ (replicate n silence ++ drop (at + n) buf), n)

  pub audio_clear : S → IntArg → Pud (List S) → Outcome (Pud (List S)) ℕ
  audio_clear silence count pud = or_raise pud.buf no_buffer pud (λ buf.
      check pud.output not_output pud (
        or_raise (opt_u32 count (avail pud)) bad_argument pud
          (λ n. stored pud (fill silence buf pud.bufp (smaller n (avail pud))))))

  abbrev pub push_next : Option S → Option (List S) → Option (List S)
  push_next none rest = none
  push_next (some v) none = none
  push_next (some v) (some vs) = some (v ∷ vs)

  -- The loop of AudioRead: `n` samples from the position `at`.
  pub push_samples : ℕ → ℕ → List S → Option (List S)
  push_samples zero at buf = some []
  push_samples (suc n) at buf = push_next (get_elem? buf at) (push_samples n (suc at) buf)

  abbrev pub pushed : Pud (List S) → ℕ → Option (List S) → Outcome (Pud (List S)) (Option (List S))
  pushed pud n none = overrun
  pushed pud n (some vs) = returned (some vs) (record pud { bufp = pud.bufp + n })

  -- What AudioRead and CustomRead share: nil at the end of the buffer, else `count` samples at most.
  abbrev pub read_some :
      (ℕ → Bool) → ℕ → List S → Pud (List S) → Outcome (Pud (List S)) (Option (List S))
  read_some grows count buf pud =
      if avail pud == 0
      then returned none pud
      else check (grows (smaller count (avail pud))) stack_full pud (
          pushed pud (smaller count (avail pud))
            (push_samples (smaller count (avail pud)) pud.bufp buf))

  pub audio_read : (ℕ → Bool) → IntArg → Pud (List S) → Outcome (Pud (List S)) (Option (List S))
  audio_read grows count pud = or_raise (opt_u32 count 1) bad_argument pud (λ n.
      or_raise pud.buf no_buffer pud
        (λ buf. check pud.input not_input pud (read_some grows n buf pud)))

  abbrev pub seek_to : IntArg → Pud (List S) → Outcome (Pud (List S)) (ℕ × ℕ)
  seek_to (integer z) pud =
      let p = record pud { bufp = to_size z } in
      check (leb (to_size z) pud.nframes) out_of_range pud (returned (p.bufp, avail p) p)
  seek_to arg pud = returned (pud.bufp, avail pud) pud

  -- AudioSeek, which is CustomSeek too.
  pub audio_seek : IntArg → Pud (List S) → Outcome (Pud (List S)) (ℕ × ℕ)
  audio_seek arg pud = or_raise pud.buf no_buffer pud (λ buf. seek_to arg pud)

  -- memcpy of `n` samples between the starts of two buffers
  pub copy_samples : ℕ → List S → List S → Option (List S)
  copy_samples n target source =
      if ltb (length target) n
      then none
      else if ltb (length source) n
      then none
      else some (take n source ++ drop n target)

  abbrev copied :
      ℕ → Pud (List S) → Pud (List S) → Option (List S) → Outcome (Pud (List S) × Pud (List S)) ℕ
  copied n target source none = overrun
  copied n target source (some b) = returned n (
    record target { buf = some b; bufp = target.bufp + n },
    record source { bufp = source.bufp + n },
  )

  abbrev copy_some :
      ℕ → List S → List S → Pud (List S) → Pud (List S) → Outcome (Pud (List S) × Pud (List S)) ℕ
  copy_some n b c target source =
      if n == 0 then returned 0 (target, source) else copied n target source (copy_samples n b c)

  -- AudioCopy, with the target's state and the source's.
  pub audio_copy : IntArg → Pud (List S) → Pud (List S) → Outcome (Pud (List S) × Pud (List S)) ℕ
  audio_copy count target source =
      let both : Pud (List S) × Pud (List S) = (target, source) in
      let most = smaller (avail target) (avail source) in
      check (is_audio source.kind) invalid_source both (
        check source.input source_not_input both (
          check target.output target_not_output both (
            or_raise target.buf no_buffer both (λ b. or_raise source.buf no_buffer both (λ c.
              if most == 0
              then returned 0 both
              else or_raise (opt_u32 count most) bad_argument both
                  (λ n. copy_some (smaller n most) b c target source))))))
