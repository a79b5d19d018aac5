-- ===== src/Objects.antt =====
-- The client and port objects of src/structs.h, without the links of the trees and queues that hold
-- them. A Lua registry reference is `none` for LUA_NOREF.
use luajack.Prelude.{ℕ, Bool, Option}

-- The bits of `marks`: IsCudValid, IsProcessCallback, IsCudProfile.
pub record Marks : Type 0 where
  pub valid : Bool
  pub process_callback : Bool
  pub profile : Bool

-- The references of the non real-time callbacks, in the Lua registry.
pub record Callbacks : Type 0 where
  pub sample_rate : Option ℕ
  pub xrun : Option ℕ
  pub graph_order : Option ℕ
  pub freewheel : Option ℕ
  pub client_registration : Option ℕ
  pub port_registration : Option ℕ
  pub port_rename : Option ℕ
  pub port_connect : Option ℕ
  pub shutdown : Option ℕ
  pub latency : Option ℕ
  pub session : Option ℕ

-- `struct luajack_cud_s`, the part that the modelled functions use.
pub record Cud : Type 0 where
  pub key : ℕ
  pub marks : Marks
  pub sample_rate : ℕ
  pub buffer_size : ℕ
  pub nframes : ℕ
  pub callbacks : Callbacks
