-- ===== src/Ring.antt =====
-- src/ringbuffer.c: messages (a tag-length header and data) over a JACK ringbuffer.
-- A function that moves the ringbuffer returns it beside its result.
pub mod Api
pub mod Header
pub mod Messages
pub mod Mailbox
pub mod Refine
pub mod CInterface
pub mod RoundTrip
pub mod Run
pub mod Model
mod Tests
use luajack.Prelude.{
  ℕ, ◌+◌, ◌-◌, ◌%◌, ◌^◌, Bool, true, false, Option, none, some, List, [], ◌∷◌, ◌++◌, length, take,
  drop, ltb, leb, ◌==◌, if◌then◌else◌, ℤ, to_u32, of_i32,
}
use Api.{Ringbuffer}
use Header.{Hdr, sizeof_hdr, hdr_bytes, hdr_of}

-- What a write ends with: refused for lack of space, done, or an "unexpected error".
pub data Written : Type 0 where
  no_space done unexpected : Written

-- What lua_tointegerx and luaL_optlstring make of the arguments of `write`.
pub data TagArg : Type 0 where
  integer : ℤ → TagArg
  not_integer : TagArg

pub data DataArg : Type 0 where
  absent : DataArg
  bytes : List ℕ → DataArg
  not_string : DataArg

-- A Lua function returns, or raises one of the errors named.
pub data Raised : Type 0 where
  invalid_tag bad_data unexpected_error : Raised

pub data LuaWrite : Type 0 where
  returned : Bool → LuaWrite
  raised : Raised → LuaWrite

-- What `ringbuffer_cread` returns: 0; 0 after a luajack_error() that tells the bytes needed; or 1,
-- with *tag, *len and the caller's buffer.
pub data CRead : Type 0 where
  no_message : CRead
  too_small : ℕ → CRead
  got : ℕ → ℕ → List ℕ → CRead

pub ringbuffer_header_len : ℕ
ringbuffer_header_len = sizeof_hdr

-- memcpy(buf, src, length src)
abbrev pub copy_into : List ℕ → List ℕ → List ℕ
copy_into buf src = src ++ drop (length src) buf

-- `luaL_optlstring` gives NULL for an absent argument; `hdr.len = len` keeps 32 bits.
abbrev pub hdr_len : Option (List ℕ) → ℕ
hdr_len none = 0
hdr_len (some d) = length d % 2 ^ 32

abbrev pub data_or_empty : Option (List ℕ) → List ℕ
data_or_empty none = []
data_or_empty (some d) = d

-- The data part of a message of length `len`, from the two readable parts.
pub message_data : List ℕ → List ℕ → ℕ → List ℕ
message_data v0 v1 len =
    if leb (sizeof_hdr + len) (length v0)
    then take len (drop sizeof_hdr v0)
    else if ltb sizeof_hdr (length v0)
    then take (length v0 - sizeof_hdr) (drop sizeof_hdr v0)
      ++ take (len - (length v0 - sizeof_hdr)) v1
    else take len (drop (sizeof_hdr - length v0) v1)

module _ (j : Ringbuffer) where
  open j use {Rb}

  unfoldable pub ringbuffer_new : ℕ → Bool → Option Rb
  ringbuffer_new sz lock = elim (j.create sz) [
    | none ↦ none
    | some rb ↦ some (if lock then j.mlock rb else rb)
  ]

  pub ringbuffer_creset : Rb → Rb
  ringbuffer_creset rb = j.reset rb

  -- Copies the data to the writable parts, the first one first, and advances.
  pub write_data : ℕ → List ℕ → Rb → Written × Rb
  write_data len d rb =
      let l0 = (j.write_vector rb).0 in
      let l1 = (j.write_vector rb).1 in
      if len == 0
      then (done, rb)
      else if ltb (l0 + l1) len
      then (unexpected, rb)
      else if leb len l0
      then (done, j.write_advance (j.store rb (take len d) []) len)
      else (done, j.write_advance (j.store rb (take l0 d) (take (len - l0) (drop l0 d))) len)

  -- The common body of the two writes: the space check, the header, then the data.
  pub write_message : Hdr → List ℕ → Rb → Written × Rb
  write_message h d rb =
      if ltb (j.write_space rb) (sizeof_hdr + h.len)
      then (no_space, rb)
      else if (j.write rb (hdr_bytes h)).0 == sizeof_hdr
      then write_data h.len d (j.write rb (hdr_bytes h)).1
      else (unexpected, (j.write rb (hdr_bytes h)).1)

  abbrev lua_result : Written × Rb → LuaWrite × Rb
  lua_result (no_space, rb) = (returned false, rb)
  lua_result (done, rb) = (returned true, rb)
  lua_result (unexpected, rb) = (raised unexpected_error, rb)

  abbrev lua_write_data : ℤ → Option (List ℕ) → Rb → LuaWrite × Rb
  lua_write_data tag d rb =
      lua_result (write_message (record { tag = to_u32 tag; len = hdr_len d }) (data_or_empty d) rb)

  pub ringbuffer_luawrite : TagArg → DataArg → Rb → LuaWrite × Rb
  unfolding write_message
  ringbuffer_luawrite not_integer d rb = (raised invalid_tag, rb)
  ringbuffer_luawrite (integer tag) not_string rb = (raised bad_data, rb)
  ringbuffer_luawrite (integer tag) absent rb = lua_write_data tag none rb
  ringbuffer_luawrite (integer tag) (bytes d) rb = lua_write_data tag (some d) rb

  -- luajack_error() returns 0, as a write without space does.
  abbrev c_result : Written × Rb → Bool × Rb
  c_result (no_space, rb) = (false, rb)
  c_result (done, rb) = (true, rb)
  c_result (unexpected, rb) = (false, rb)

  pub ringbuffer_cwrite : ℕ → Option (List ℕ) → Rb → Bool × Rb
  ringbuffer_cwrite tag d rb =
      c_result (write_message (record { tag = tag; len = hdr_len d }) (data_or_empty d) rb)

  -- The header at the front, if header and data are all there.
  pub complete_header : Rb → Option Hdr
  complete_header rb =
      let hdr = hdr_of (j.peek rb sizeof_hdr) in
      if length (j.peek rb sizeof_hdr) == sizeof_hdr
      then if ltb (j.read_space rb) (sizeof_hdr + hdr.len) then none else some hdr
      else none

  abbrev advance_if : Bool → ℕ → Rb → Rb
  advance_if advance n rb = if advance then j.read_advance rb n else rb

  abbrev lua_message : Bool → Hdr → Rb → Option (ℤ × List ℕ) × Rb
  lua_message advance hdr rb =
      if hdr.len == 0 then (some (of_i32 hdr.tag, []), advance_if advance sizeof_hdr rb) else (
        some (of_i32 hdr.tag, message_data (j.read_vector rb).0 (j.read_vector rb).1 hdr.len),
        advance_if advance (sizeof_hdr + hdr.len) rb,
      )

  abbrev lua_front : Bool → Option Hdr → Rb → Option (ℤ × List ℕ) × Rb
  lua_front advance none rb = (none, rb)
  lua_front advance (some hdr) rb = lua_message advance hdr rb

  -- `none` is the single nil that is returned where there is no complete message.
  pub ringbuffer_luaread : Bool → Rb → Option (ℤ × List ℕ) × Rb
  ringbuffer_luaread advance rb = lua_front advance (complete_header rb) rb

  abbrev c_message : Bool → List ℕ → Hdr → Rb → CRead × Rb
  c_message advance buf hdr rb =
      if ltb (length buf) hdr.len
      then (too_small hdr.len, rb)
      else if hdr.len == 0
      then (
        got hdr.tag 0 (if ltb 0 (length buf) then copy_into buf (0 ∷ []) else buf),
        advance_if advance sizeof_hdr rb,
      )
      else (
        got hdr.tag hdr.len
            (copy_into buf (message_data (j.read_vector rb).0 (j.read_vector rb).1 hdr.len)),
        advance_if advance (sizeof_hdr + hdr.len) rb,
      )

  abbrev c_front : Bool → List ℕ → Option Hdr → Rb → CRead × Rb
  c_front advance buf none rb = (no_message, rb)
  c_front advance buf (some hdr) rb = c_message advance buf hdr rb

  -- The caller's buffer has `length buf` = bufsz bytes.
  pub ringbuffer_cread : Bool → List ℕ → Rb → CRead × Rb
  ringbuffer_cread advance buf rb = c_front advance buf (complete_header rb) rb

  abbrev skip_message : Option Hdr → Rb → Bool × Rb
  skip_message none rb = (false, rb)
  skip_message (some hdr) rb = (true, j.read_advance rb (sizeof_hdr + hdr.len))

  pub ringbuffer_luaread_advance : Rb → Bool × Rb
  ringbuffer_luaread_advance rb = skip_message (complete_header rb) rb

  pub ringbuffer_cread_advance : Rb → Bool × Rb
  ringbuffer_cread_advance rb = skip_message (complete_header rb) rb

  pub ringbuffer_write_space : Rb → ℕ
  ringbuffer_write_space rb = j.write_space rb

  pub ringbuffer_read_space : Rb → ℕ
  ringbuffer_read_space rb = j.read_space rb
