-- ===== src/Registry/Api.antt =====
-- The registry of a Lua state as luaL_ref, luaL_unref and lua_rawgeti see it, which is not part of the
-- repository, and a client's fields for references as what is read from and written to them.
use luajack.Prelude.{ℕ, ◌≡◌, Bool, true, Option, none, some, ◌==◌, if◌then◌else◌}

pub record LuaRegistry : Type 1 where
  pub R : Type 0
  -- the values referenced
  pub Fn : Type 0
  pub ref : R → Fn → ℕ × R
  pub unref : R → ℕ → R
  pub rawgeti : R → ℕ → Option Fn

module _ (r : LuaRegistry) where
  open r use {R, Fn, ref, unref, rawgeti}

  -- The manual of Lua on luaL_ref: a reference is unique while it is not released.
  pub record IsRegistry : Type 0 where
    pub ref_fresh : (g : R) (f : Fn) → rawgeti g (ref g f).0 ≡ none
    pub ref_lem :
        (g : R) (f : Fn) (i : ℕ)
        → rawgeti (ref g f).1 i ≡ (if i == (ref g f).0 then some f else rawgeti g i)
    pub unref_lem :
        (g : R) (k i : ℕ) → rawgeti (unref g k) i ≡ (if i == k then none else rawgeti g i)

-- The callbacks `K` of the clients `C`; a reference is `none` for LUA_NOREF.
pub record Slots : Type 1 where
  pub K : Type 0
  pub C : Type 0
  pub same : K → K → Bool
  pub look : K → C → Option ℕ
  pub put : K → Option ℕ → C → C
  pub same_refl : (k : K) → same k k ≡ true
  pub same_eq : (j k : K) → same j k ≡ true → j ≡ k
  pub look-put :
      (j k : K) (v : Option ℕ) (c : C) → look j (put k v c) ≡ (if same j k then v else look j c)
