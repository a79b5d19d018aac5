-- ===== src/Realtime/Register.antt =====
-- The registration of the real-time callbacks (src/process.c), whose references are in the registry of
-- the process state. The macro TimebaseConditional stands for Timebase, so that both ways to register a
-- timebase callback use one field.
use luajack.Prelude.{
  ℕ, ◌≡◌, refl, sym, ◌∙◌, Bool, true, Option, some, List, [], ◌∷◌, ◌==◌, if◌then◌else◌, eq→==,
  arith, inl, inr, differ,
}
use luajack.Registry.{Registered, unregister_all, set_callback, listed}
use luajack.Registry.Api.{LuaRegistry, IsRegistry, Slots}
use luajack.Registry.Table.{IsLinked}
use luajack.Registry.Session.{Call, calls, release_leaves}

-- The fields of `struct luajack_cud_s` for the references.
pub record Callbacks : Type 0 where
  pub process : Option ℕ
  pub buffer_size : Option ℕ
  pub sync : Option ℕ
  pub timebase : Option ℕ

pub data Kind : Type 0 where
  process buffer_size sync timebase : Kind

abbrev pub field : Kind → Callbacks → Option ℕ
field process c = c.process
field buffer_size c = c.buffer_size
field sync c = c.sync
field timebase c = c.timebase

abbrev pub set_field : Kind → Option ℕ → Callbacks → Callbacks
set_field process v c = record c { process = v }
set_field buffer_size v c = record c { buffer_size = v }
set_field sync v c = record c { sync = v }
set_field timebase v c = record c { timebase = v }

abbrev pub number : Kind → ℕ
number process = 0
number buffer_size = 1
number sync = 2
number timebase = 3

abbrev pub same_kind : Kind → Kind → Bool
same_kind j k = number j == number k

pub same_kind_refl : (k : Kind) → same_kind k k ≡ true
same_kind_refl k = eq→== (number k) (number k) refl

pub same_kind-eq : (j k : Kind) → same_kind j k ≡ true → j ≡ k
same_kind-eq j k h = grind arith

pub field-set_field :
    (j k : Kind) (v : Option ℕ) (c : Callbacks)
    → field j (set_field k v c) ≡ (if same_kind j k then v else field j c)
field-set_field process process v c = refl
field-set_field process _ v c = refl
field-set_field buffer_size buffer_size v c = refl
field-set_field buffer_size _ v c = refl
field-set_field sync sync v c = refl
field-set_field sync _ v c = refl
field-set_field timebase timebase v c = refl
field-set_field timebase _ v c = refl

abbrev pub process_slots : Slots
process_slots = record {
  K = Kind;
  C = Callbacks;
  same = same_kind;
  look = field;
  put = set_field;
  same_refl = same_kind_refl;
  same_eq = same_kind-eq;
  look-put = field-set_field;
}

-- What process_unregister releases, in its order.
abbrev pub unregistered : List Kind
unregistered = process ∷ buffer_size ∷ sync ∷ timebase ∷ timebase ∷ []

module _ (r : LuaRegistry) where
  -- `loaded` is whether the client has a process state.
  unfoldable pub process_unregister : Bool → Registered r process_slots → Registered r process_slots
  process_unregister loaded st =
      if loaded then unregister_all r process_slots unregistered st else st

  pub process_callback :
      Option r.Fn → Bool → Registered r process_slots → Bool × Registered r process_slots
  process_callback arg ok st = set_callback r process_slots process arg ok st

  pub buffer_size_callback :
      Option r.Fn → Bool → Registered r process_slots → Bool × Registered r process_slots
  buffer_size_callback arg ok st = set_callback r process_slots buffer_size arg ok st

  pub sync_callback :
      Option r.Fn → Bool → Registered r process_slots → Bool × Registered r process_slots
  sync_callback arg ok st = set_callback r process_slots sync arg ok st

  -- TimebaseCallback; JACK's answer depends on `conditional`.
  pub timebase_callback :
      Option r.Fn
      → Bool
      → (Bool → Bool)
      → Registered r process_slots
      → Bool × Registered r process_slots
  timebase_callback arg conditional ok st =
      set_callback r process_slots timebase arg (ok conditional) st

  -- ReleaseTimebase: the error of jack_release_timebase is raised after the releases.
  pub release_timebase : Bool → Registered r process_slots → Bool × Registered r process_slots
  release_timebase ok st = (ok, unregister_all r process_slots (timebase ∷ timebase ∷ []) st)

module _ (r : LuaRegistry) (doc : IsRegistry r) where
  all_listed : (k : Kind) → listed r process_slots k unregistered ≡ true
  all_listed process = refl
  all_listed buffer_size = refl
  all_listed sync = refl
  all_listed timebase = refl

  -- When a client with a process state is closed, what scripts registered with it in any order is
  -- released: the registry holds nothing that it did not hold before.
  pub close_leaves_nothing :
      (cs : List (Call r process_slots)) (st : Registered r process_slots) (i : ℕ) (f : r.Fn)
      → IsLinked r process_slots st
      → r.rawgeti (process_unregister r true (calls r process_slots cs st)).registry i ≡ some f
      → r.rawgeti st.registry i ≡ some f
  unfolding process_unregister
  close_leaves_nothing cs st i f linked there =
      elim (release_leaves r doc process_slots cs unregistered st i f linked there) [
        | inl old ↦ old
        | inr (k, unlisted, held) ↦ absurd (differ (sym (all_listed k) ∙ unlisted))
      ]
