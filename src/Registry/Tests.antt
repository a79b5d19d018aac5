-- ===== src/Registry/Tests.antt =====
-- Registrations in a registry of numbers, for a client with two callbacks, and the theorems about them
-- at concrete inputs.
use luajack.Prelude.{
  ℕ, ◌≡◌, refl, Bool, true, false, Option, none, some, List, [], ◌∷◌, if◌then◌else◌,
}
use luajack.Registry.{Registered, register, unregister, set_callback}
use luajack.Registry.Api.{Slots}
use luajack.Registry.Table.{IsLinked, function_of}
use luajack.Registry.Session.{Call, set, calls, calls_refine}
use luajack.Registry.Model.{value_list, value_list-IsRegistry}

-- Two callbacks, as the halves of a pair.
abbrev same : Bool → Bool → Bool
same true b = b
same false true = false
same false false = true

abbrev look : Bool → Option ℕ × Option ℕ → Option ℕ
look true c = c.0
look false c = c.1

abbrev put : Bool → Option ℕ → Option ℕ × Option ℕ → Option ℕ × Option ℕ
put true v c = (v, c.1)
put false v c = (c.0, v)

same_refl : (k : Bool) → same k k ≡ true
same_refl true = refl
same_refl false = refl

same_eq : (j k : Bool) → same j k ≡ true → j ≡ k
same_eq true true h = refl
same_eq true false h = cc
same_eq false true h = cc
same_eq false false h = refl

look-put :
    (j k : Bool) (v : Option ℕ) (c : Option ℕ × Option ℕ)
    → look j (put k v c) ≡ (if same j k then v else look j c)
look-put true true v c = refl
look-put true false v c = refl
look-put false true v c = refl
look-put false false v c = refl

abbrev pair_slots : Slots
pair_slots = record {
  K = Bool;
  C = Option ℕ × Option ℕ;
  same = same;
  look = look;
  put = put;
  same_refl = same_refl;
  same_eq = same_eq;
  look-put = look-put;
}

abbrev fresh : Registered value_list pair_slots
fresh = record { registry = some 99 ∷ []; client = (none, none) }

nothing_held : (k : Bool) (i : ℕ) → ¬ (look k (none, none) ≡ some i)
nothing_held true i e = cc
nothing_held false i e = cc

fresh-IsLinked : IsLinked value_list pair_slots fresh
fresh-IsLinked = record {
  live = λ k i e. absurd (nothing_held k i e);
  apart = λ j k i e f. absurd (nothing_held j i e);
}

-- The second registration of a callback is refused: the first function is gone too.
abbrev script : List (Call value_list pair_slots)
script = set true (some 5) true ∷ set false (some 6) true ∷ set true (some 7) false ∷ []

refused_is_none :
    function_of value_list pair_slots true (calls value_list pair_slots script fresh) ≡ none
unfolding set_callback register unregister
refused_is_none = refl

calls_refine_example :
    function_of value_list pair_slots false (calls value_list pair_slots script fresh) ≡ some 6
calls_refine_example =
    calls_refine value_list value_list-IsRegistry pair_slots script fresh fresh-IsLinked false
