-- ===== src/Registry.antt =====
-- The registration of callbacks, the macros Register and Unregister that src/callback.c and
-- src/process.c both have: a client's callbacks are references into the registry of a Lua state.
pub mod Api
pub mod Table
pub mod Functions
pub mod Accounts
pub mod Session
pub mod Model
mod Tests
use luajack.Prelude.{ℕ, Bool, true, false, Option, none, some, List, [], ◌∷◌, if◌then◌else◌}
use Api.{LuaRegistry, Slots}

module _ (r : LuaRegistry) (s : Slots) where
  -- The registry, and the client that holds the references.
  pub record Registered : Type 0 where
    pub registry : r.R
    pub client : s.C

  abbrev pub unref_slot : s.K → Option ℕ → Registered → Registered
  unref_slot k none st = st
  unref_slot k (some ref) st = record {
    registry = r.unref st.registry ref;
    client = s.put k none st.client;
  }

  -- Unregister
  unfoldable pub unregister : s.K → Registered → Registered
  unregister k st = unref_slot k (s.look k st.client) st

  abbrev pub store_ref : s.K → ℕ × r.R → Registered → Registered
  store_ref k (ref, registry) st = record {
    registry = registry;
    client = s.put k (some ref) st.client;
  }

  -- The function is pushed and its reference stored; whether JACK's call succeeds is an argument.
  -- `false` is the error "cannot register callback".
  unfoldable pub register : s.K → r.Fn → Bool → Registered → Bool × Registered
  register k f ok st =
      let old = unregister k st in
      let new = store_ref k (r.ref old.registry f) old in
      if ok then (true, new) else (false, unregister k new)

  -- The functions that scripts call: CheckFunction, then Register. `none` is an argument that is no
  -- function.
  unfoldable pub set_callback : s.K → Option r.Fn → Bool → Registered → Bool × Registered
  set_callback k none ok st = (false, st)
  set_callback k (some f) ok st = register k f ok st

  -- Whether a callback stands in a list.
  abbrev pub listed : s.K → List s.K → Bool
  listed j [] = false
  listed j (k ∷ ks) = if s.same j k then true else listed j ks

  -- Unregister for each of a list of callbacks.
  unfoldable pub unregister_all : List s.K → Registered → Registered
  unregister_all [] st = st
  unregister_all (k ∷ ks) st = unregister_all ks (unregister k st)
