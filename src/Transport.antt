-- ===== src/Transport.antt =====
-- src/transport.c: positions as Lua tables, and back. Floating-point numbers are a parameter.
pub mod RoundTrip
mod Tests
use luajack.Prelude.{
  ◌≡◌, ◌>>=◌, ℕ, ◌-◌, ◌%◌, ◌^◌, Bool, true, false, Option, none, some, ltb, if◌then◌else◌, ℤ, pos,
  negsuc, to_u32, of_i32,
}
use luajack.Buffer.{to_size}

-- The numbers of C and Lua: D for double and lua_Number, F for float.
pub record Floats : Type 1 where
  pub D : Type 0
  pub F : Type 0
  pub zero : D
  pub zero_f : F
  pub widen : F → D
  pub narrow : D → F
  -- a double that is an integer, and an integer as a double
  pub to_integer : D → Option ℤ
  pub of_integer : ℤ → D

-- A float survives as a double.
pub record IsFloats (n : Floats) : Type 0 where
  pub narrow-widen : (x : n.F) → n.narrow (n.widen x) ≡ x

-- The fields of the table.
pub data Field : Type 0 where
  unique_1 usecs frame_rate frame bar beat tick bar_start_tick beats_per_bar beat_type : Field
  ticks_per_beat beats_per_minute frame_time next_time bbt_offset : Field
  audio_frames_per_video_frame video_offset unique_2 : Field

-- A uint64_t as a lua_Integer.
pub to_i64 : ℕ → ℤ
to_i64 n = if ltb n (2 ^ 63) then pos n else negsuc (2 ^ 64 - 1 - n)

-- The conversion of a lua_Integer to int32_t.
abbrev pub to_i32 : ℤ → ℤ
to_i32 z = of_i32 (to_u32 z)

module _ (n : Floats) where
  open n use {D, F}

  -- The fields of jack_position_t that JackPositionBBT makes valid.
  pub record Bbt : Type 0 where
    pub bar : ℤ
    pub beat : ℤ
    pub tick : ℤ
    pub bar_start_tick : D
    pub beats_per_bar : D
    pub beat_type : D
    pub ticks_per_beat : D
    pub beats_per_minute : D

  -- `jack_position_t`; a `has_` is a bit of `valid`.
  pub record Position : Type 0 where
    pub unique_1 : ℕ
    pub usecs : ℕ
    pub frame_rate : ℕ
    pub frame : ℕ
    pub has_bbt : Bool
    pub bbt : Bbt
    pub has_timecode : Bool
    pub frame_time : D
    pub next_time : D
    pub has_bbt_offset : Bool
    pub bbt_offset : ℕ
    pub has_ratio : Bool
    pub audio_frames_per_video_frame : F
    pub has_video_offset : Bool
    pub video_offset : ℕ
    pub unique_2 : ℕ

  -- A value of a table; any other type is `other`.
  pub data Value : Type 0 where
    nil other : Value
    integer : ℤ → Value
    number : D → Value

  abbrev Table : Type 0
  Table = Field → Value

  -- A field that is set only with a bit.
  abbrev when : Bool → Value → Value
  when valid v = if valid then v else nil

  pub transport_pushposition : Position → Table
  transport_pushposition p unique_1 = integer (to_i64 p.unique_1)
  transport_pushposition p usecs = integer (to_i64 p.usecs)
  transport_pushposition p frame_rate = integer (pos p.frame_rate)
  transport_pushposition p frame = integer (pos p.frame)
  transport_pushposition p bar = when p.has_bbt (integer p.bbt.bar)
  transport_pushposition p beat = when p.has_bbt (integer p.bbt.beat)
  transport_pushposition p tick = when p.has_bbt (integer p.bbt.tick)
  transport_pushposition p bar_start_tick = when p.has_bbt (number p.bbt.bar_start_tick)
  transport_pushposition p beats_per_bar = when p.has_bbt (number p.bbt.beats_per_bar)
  transport_pushposition p beat_type = when p.has_bbt (number p.bbt.beat_type)
  transport_pushposition p ticks_per_beat = when p.has_bbt (number p.bbt.ticks_per_beat)
  transport_pushposition p beats_per_minute = when p.has_bbt (number p.bbt.beats_per_minute)
  transport_pushposition p frame_time = when p.has_timecode (number p.frame_time)
  transport_pushposition p next_time = when p.has_timecode (number p.next_time)
  transport_pushposition p bbt_offset = when p.has_bbt_offset (integer (pos p.bbt_offset))
  transport_pushposition p audio_frames_per_video_frame =
      when p.has_ratio (number (n.widen p.audio_frames_per_video_frame))
  transport_pushposition p video_offset = when p.has_video_offset (integer (pos p.video_offset))
  transport_pushposition p unique_2 = integer (to_i64 p.unique_2)

  -- luaL_checkinteger and luaL_checknumber; `none` is their error.
  abbrev check_integer : Value → Option ℤ
  check_integer nil = none
  check_integer other = none
  check_integer (integer z) = some z
  check_integer (number x) = n.to_integer x

  abbrev check_number : Value → Option D
  check_number nil = none
  check_number other = none
  check_number (integer z) = some (n.of_integer z)
  check_number (number x) = some x

  abbrev is_set : Value → Bool
  is_set nil = false
  is_set _ = true

  abbrev no_bbt : Bbt
  no_bbt = record {
    bar = pos 0;
    beat = pos 0;
    tick = pos 0;
    bar_start_tick = n.zero;
    beats_per_bar = n.zero;
    beat_type = n.zero;
    ticks_per_beat = n.zero;
    beats_per_minute = n.zero;
  }

  abbrev read_bbt : Table → Option Bbt
  read_bbt t = do
    a ← check_integer (t bar)
    b ← check_integer (t beat)
    c ← check_integer (t tick)
    d ← check_number (t bar_start_tick)
    e ← check_number (t beats_per_bar)
    f ← check_number (t beat_type)
    g ← check_number (t ticks_per_beat)
    h ← check_number (t beats_per_minute)
    some (record {
      bar = to_i32 a;
      beat = to_i32 b;
      tick = to_i32 c;
      bar_start_tick = d;
      beats_per_bar = e;
      beat_type = f;
      ticks_per_beat = g;
      beats_per_minute = h;
    })

  abbrev read_timecode : Table → Option (D × D)
  read_timecode t = do x ← check_number (t frame_time); y ← check_number (t next_time); some (x, y)

  -- `valid` and the fields that go with it, as zeros where the first of them is nil.
  abbrev optional : {A : Type 0} → Value → A → Option A → Option (Bool × A)
  optional v absent read =
      if is_set v
      then (elim read [ none ↦ none | some x ↦ some (true, x) ])
      else some (false, absent)

  pub transport_checkposition : Table → Option Position
  transport_checkposition t = do
    u1 ← check_integer (t unique_1)
    us ← check_integer (t usecs)
    fr ← check_integer (t frame_rate)
    f ← check_integer (t frame)
    b ← optional (t bar) no_bbt (read_bbt t)
    c ← optional {A = D × D} (t frame_time) (n.zero, n.zero) (read_timecode t)
    o ← optional (t bbt_offset) (pos 0) (check_integer (t bbt_offset))
    r ←
        optional (t audio_frames_per_video_frame) n.zero
          (check_number (t audio_frames_per_video_frame))
    v ← optional (t video_offset) (pos 0) (check_integer (t video_offset))
    u2 ← check_integer (t unique_2)
    some (record {
      unique_1 = to_size u1;
      usecs = to_size us;
      frame_rate = to_u32 fr;
      frame = to_u32 f;
      has_bbt = b.0;
      bbt = b.1;
      has_timecode = c.0;
      frame_time = c.1.0;
      next_time = c.1.1;
      has_bbt_offset = o.0;
      bbt_offset = to_u32 o.1;
      has_ratio = r.0;
      audio_frames_per_video_frame = if r.0 then n.narrow r.1 else n.zero_f;
      has_video_offset = v.0;
      video_offset = to_u32 v.1;
      unique_2 = to_size u2;
    })
