-- ===== src/Transport/RoundTrip.antt =====
-- A position that was made a table and read again.
use luajack.Prelude.{
  ◌≡◌, refl, ℕ, ◌^◌, ◌<◌, Bool, true, false, some, if◌then◌else◌, pos, to_u32, IsI32, of_i32-to_u32,
  arith,
}
use luajack.Buffer.{to_size}
use luajack.Transport.{
  Floats, IsFloats, unique_1, usecs, frame_rate, frame, bar, frame_time, bbt_offset,
  audio_frames_per_video_frame, video_offset, unique_2, to_i64, Position, transport_pushposition,
  transport_checkposition, check_integer, check_number, no_bbt, read_bbt, read_timecode, optional,
}

to_size-to_i64 : (n : ℕ) → n < 2 ^ 64 → to_size (to_i64 n) ≡ n
unfolding to_i64
to_size-to_i64 n h = ground arith

to_u32-pos : (n : ℕ) → n < 2 ^ 32 → to_u32 (pos n) ≡ n
unfolding to_u32
to_u32-pos n h = omega arith

module _ (n : Floats) where
  -- The numbers fit the types of the fields.
  pub record IsPosition (p : Position n) : Type 0 where
    pub unique_1 : p.unique_1 < 2 ^ 64
    pub usecs : p.usecs < 2 ^ 64
    pub frame_rate : p.frame_rate < 2 ^ 32
    pub frame : p.frame < 2 ^ 32
    pub bar : IsI32 p.bbt.bar
    pub beat : IsI32 p.bbt.beat
    pub tick : IsI32 p.bbt.tick
    pub bbt_offset : p.bbt_offset < 2 ^ 32
    pub video_offset : p.video_offset < 2 ^ 32
    pub unique_2 : p.unique_2 < 2 ^ 64

  -- The position with zeros in the fields that are not valid.
  abbrev pub valid_part : Position n → Position n
  valid_part p = record p {
    bbt = if p.has_bbt then p.bbt else no_bbt n;
    frame_time = if p.has_timecode then p.frame_time else n.zero;
    next_time = if p.has_timecode then p.next_time else n.zero;
    bbt_offset = if p.has_bbt_offset then p.bbt_offset else 0;
    audio_frames_per_video_frame = if p.has_ratio then p.audio_frames_per_video_frame else n.zero_f;
    video_offset = if p.has_video_offset then p.video_offset else 0;
  }

  -- The parts of the table, read one by one.
  bbt_part :
      (valid : Bool) (p : Position n)
      → p.has_bbt ≡ valid
      → IsPosition p
      → let t = transport_pushposition n p in
        optional n (t bar) (no_bbt n) (read_bbt n t)
        ≡ some (valid, if valid then p.bbt else no_bbt n)
  unfolding transport_pushposition
  bbt_part true p h is =
      rw
        (
          h,
          of_i32-to_u32 p.bbt.bar is.bar,
          of_i32-to_u32 p.bbt.beat is.beat,
          of_i32-to_u32 p.bbt.tick is.tick,
        )
        refl
  bbt_part false p h is = rw h refl

  timecode_part :
      (valid : Bool) (p : Position n)
      → p.has_timecode ≡ valid
      → let t = transport_pushposition n p in
        optional n {A = n.D × n.D} (t frame_time) (n.zero, n.zero) (read_timecode n t)
        ≡ some (valid, if valid then (p.frame_time, p.next_time) else (n.zero, n.zero))
  unfolding transport_pushposition
  timecode_part true p h = rw h refl
  timecode_part false p h = rw h refl

  offset_part :
      (valid : Bool) (p : Position n)
      → p.has_bbt_offset ≡ valid
      → let v = transport_pushposition n p bbt_offset in
        optional n v (pos 0) (check_integer n v)
        ≡ some (valid, if valid then pos p.bbt_offset else pos 0)
  unfolding transport_pushposition
  offset_part true p h = rw h refl
  offset_part false p h = rw h refl

  ratio_part :
      (valid : Bool) (p : Position n)
      → p.has_ratio ≡ valid
      → let v = transport_pushposition n p audio_frames_per_video_frame in
        optional n v n.zero (check_number n v)
        ≡ some (valid, if valid then n.widen p.audio_frames_per_video_frame else n.zero)
  unfolding transport_pushposition
  ratio_part true p h = rw h refl
  ratio_part false p h = rw h refl

  video_part :
      (valid : Bool) (p : Position n)
      → p.has_video_offset ≡ valid
      → let v = transport_pushposition n p video_offset in
        optional n v (pos 0) (check_integer n v)
        ≡ some (valid, if valid then pos p.video_offset else pos 0)
  unfolding transport_pushposition
  video_part true p h = rw h refl
  video_part false p h = rw h refl

  mandatory_part :
      (p : Position n)
      → let t = transport_pushposition n p in
        (check_integer n (t unique_1) ≡ some (to_i64 p.unique_1))
        × (check_integer n (t usecs) ≡ some (to_i64 p.usecs))
        × (check_integer n (t frame_rate) ≡ some (pos p.frame_rate))
        × (check_integer n (t frame) ≡ some (pos p.frame))
        × (check_integer n (t unique_2) ≡ some (to_i64 p.unique_2))
  unfolding transport_pushposition
  mandatory_part p = (refl, refl, refl, refl, refl)

  -- An optional unsigned field comes back, and 0 stands for one that is not valid.
  back_u32 :
      (valid : Bool) (x : ℕ)
      → x < 2 ^ 32
      → to_u32 (if valid then pos x else pos 0) ≡ (if valid then x else 0)
  back_u32 true x h = to_u32-pos x h
  back_u32 false x h = to_u32-pos 0 (omega arith)

  back_float :
      IsFloats n
      → (valid : Bool) (x : n.F)
      → (if valid then n.narrow (if valid then n.widen x else n.zero) else n.zero_f)
        ≡ (if valid then x else n.zero_f)
  back_float laws true x = laws.narrow-widen x
  back_float laws false x = refl

  abbrev times : n.D → n.D → n.D × n.D
  times x y = (x, y)

  back_times :
      (valid : Bool) (x y : n.D)
      → ((if valid then times x y else times n.zero n.zero).0 ≡ (if valid then x else n.zero))
        × ((if valid then times x y else times n.zero n.zero).1 ≡ (if valid then y else n.zero))
  back_times true x y = (refl, refl)
  back_times false x y = (refl, refl)

  -- The table that `transport_pushposition` makes of a position whose numbers fit their types is one
  -- that `transport_checkposition` takes, and it gives back every mandatory field, the bits of `valid`
  -- and the fields that they make valid; the other fields are 0.
  pub check-push :
      IsFloats n
      → (p : Position n) → IsPosition p
      → transport_checkposition n (transport_pushposition n p) ≡ some (valid_part p)
  unfolding transport_checkposition
  check-push laws p is =
      let m = mandatory_part p in
      rw
        (
          m.0,
          m.1,
          m.2,
          m.3,
          m.4,
          bbt_part p.has_bbt p refl is,
          timecode_part p.has_timecode p refl,
          offset_part p.has_bbt_offset p refl,
          ratio_part p.has_ratio p refl,
          video_part p.has_video_offset p refl,
        )
        (rw
          (
            to_size-to_i64 p.unique_1 is.unique_1,
            to_size-to_i64 p.usecs is.usecs,
            to_size-to_i64 p.unique_2 is.unique_2,
            to_u32-pos p.frame_rate is.frame_rate,
            to_u32-pos p.frame is.frame,
            back_u32 p.has_bbt_offset p.bbt_offset is.bbt_offset,
            back_u32 p.has_video_offset p.video_offset is.video_offset,
            back_float laws p.has_ratio p.audio_frames_per_video_frame,
            (back_times p.has_timecode p.frame_time p.next_time).0,
            (back_times p.has_timecode p.frame_time p.next_time).1,
          )
          refl)
