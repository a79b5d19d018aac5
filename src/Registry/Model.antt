-- ===== src/Registry/Model.antt =====
-- A registry as a list of values, in which a reference is a position, for tests.
use luajack.Prelude.{
  ℕ, zero, suc, ◌≡◌, refl, Option, none, some, List, [], ◌∷◌, ◌++◌, length, ◌==◌, if◌then◌else◌,
  arith,
}
use luajack.Registry.Api.{LuaRegistry, IsRegistry}

abbrev pub value_at : List (Option ℕ) → ℕ → Option ℕ
value_at [] i = none
value_at (x ∷ xs) zero = x
value_at (x ∷ xs) (suc i) = value_at xs i

abbrev pub clear_at : List (Option ℕ) → ℕ → List (Option ℕ)
clear_at [] i = []
clear_at (x ∷ xs) zero = none ∷ xs
clear_at (x ∷ xs) (suc i) = x ∷ clear_at xs i

abbrev pub value_list : LuaRegistry
value_list = record {
  R = List (Option ℕ);
  Fn = ℕ;
  ref = λ g f. (length g, g ++ (some f ∷ []));
  unref = clear_at;
  rawgeti = value_at;
}

pub value_at_end : (g : List (Option ℕ)) → value_at g (length g) ≡ none
value_at_end [] = refl
value_at_end (x ∷ g) = value_at_end g

pub value_at-append :
    (g : List (Option ℕ)) (f i : ℕ)
    → value_at (g ++ (some f ∷ [])) i ≡ (if i == length g then some f else value_at g i)
value_at-append [] f zero = refl
value_at-append [] f (suc i) = ground arith
value_at-append (x ∷ g) f zero = ground arith
value_at-append (x ∷ g) f (suc i) = ground (arith, value_at-append g f i)

pub value_at-clear_at :
    (g : List (Option ℕ)) (k i : ℕ)
    → value_at (clear_at g k) i ≡ (if i == k then none else value_at g i)
value_at-clear_at [] k i = ground arith
value_at-clear_at (x ∷ g) zero zero = refl
value_at-clear_at (x ∷ g) zero (suc i) = ground arith
value_at-clear_at (x ∷ g) (suc k) zero = ground arith
value_at-clear_at (x ∷ g) (suc k) (suc i) = ground (arith, value_at-clear_at g k i)

abbrev pub value_list-IsRegistry : IsRegistry value_list
value_list-IsRegistry = record {
  ref_fresh = λ g f. value_at_end g;
  ref_lem = value_at-append;
  unref_lem = value_at-clear_at;
}
