-- ===== src/Transport/Tests.antt =====
-- The round trip of positions at a concrete one, with integers as the floating-point numbers.
use luajack.Prelude.{◌≡◌, refl, true, false, none, some, ℤ, pos, negsuc, arith}
use luajack.Transport.{
  Floats, IsFloats, Position, nil, transport_pushposition, transport_checkposition,
}
use luajack.Transport.RoundTrip.{IsPosition, valid_part, check-push}

abbrev integers : Floats
integers = record {
  D = ℤ;
  F = ℤ;
  zero = pos 0;
  zero_f = pos 0;
  widen = λ x. x;
  narrow = λ x. x;
  to_integer = some;
  of_integer = λ z. z;
}

integers-IsFloats : IsFloats integers
integers-IsFloats = record { narrow-widen = λ x. refl }

-- Bar and beat are valid, the other optional fields are not.
abbrev position : Position integers
position = record {
  unique_1 = 18446744073709551615;
  usecs = 1000;
  frame_rate = 48000;
  frame = 4294967295;
  has_bbt = true;
  bbt = record {
    bar = pos 3;
    beat = pos 2;
    tick = negsuc 0;
    bar_start_tick = pos 5;
    beats_per_bar = pos 4;
    beat_type = pos 4;
    ticks_per_beat = pos 100;
    beats_per_minute = pos 120;
  };
  has_timecode = false;
  frame_time = pos 7;
  next_time = pos 8;
  has_bbt_offset = false;
  bbt_offset = 9;
  has_ratio = true;
  audio_frames_per_video_frame = pos 10;
  has_video_offset = false;
  video_offset = 11;
  unique_2 = 18446744073709551615;
}

position-IsPosition : IsPosition integers position
position-IsPosition = record {
  unique_1 = omega arith;
  usecs = omega arith;
  frame_rate = omega arith;
  frame = omega arith;
  bar = omega arith;
  beat = omega arith;
  tick = omega arith;
  bbt_offset = omega arith;
  video_offset = omega arith;
  unique_2 = omega arith;
}

-- A table without one of the mandatory fields is an error.
empty_table : transport_checkposition integers (λ f. nil) ≡ none
unfolding transport_checkposition
empty_table = refl

check-push_example :
    transport_checkposition integers (transport_pushposition integers position)
    ≡ some (valid_part integers position)
check-push_example = check-push integers integers-IsFloats position position-IsPosition
