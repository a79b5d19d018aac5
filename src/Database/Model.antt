-- ===== src/Database/Model.antt =====
-- A database's tree as a sorted list of addresses, for tests.
use luajack.Prelude.{
  ℕ, ◌≡◌, refl, ap, ◌∙◌, if_both, le→leb, Bool, true, false, Option, none, some, List, [], ◌∷◌,
  ◌==◌, leb, if◌then◌else◌, arith,
}
use luajack.Database.Api.{Tree, IsTree, member, delete, head}

abbrev pub insert_sorted : ℕ → List ℕ → List ℕ
insert_sorted k [] = k ∷ []
insert_sorted k (x ∷ xs) = if leb k x then k ∷ (x ∷ xs) else x ∷ insert_sorted k xs

-- The first key that is not below `k`.
abbrev pub first_from : List ℕ → ℕ → Option ℕ
first_from [] k = none
first_from (x ∷ xs) k = if leb k x then some x else first_from xs k

abbrev pub key_list : Tree
key_list = record {
  T = List ℕ;
  find = λ ks k. member k ks;
  nfind = first_from;
  insert = λ ks k. insert_sorted k ks;
  remove = λ ks k. delete k ks;
}

pub swap_tests :
    (a b c : Bool)
    → (if a then true else if b then true else c) ≡ (if b then true else if a then true else c)
swap_tests true true c = refl
swap_tests true false c = refl
swap_tests false true c = refl
swap_tests false false c = refl

pub member-insert :
    (k i : ℕ) (xs : List ℕ) → member i (insert_sorted k xs) ≡ (if i == k then true else member i xs)
member-insert k i [] = refl
member-insert k i (x ∷ xs) =
    if_both (λ ys. member i ys ≡ (if i == k then true else member i (x ∷ xs))) (leb k x) refl
      (ap (λ b. if i == x then true else b) (member-insert k i xs)
        ∙ swap_tests (i == x) (i == k) (member i xs))

pub first_from_zero : (ks : List ℕ) → first_from ks 0 ≡ head ks
first_from_zero [] = refl
first_from_zero (x ∷ xs) = rw (le→leb 0 x (omega arith)) refl

abbrev pub key_list-IsTree : IsTree key_list
key_list-IsTree = record {
  keys = λ ks. ks;
  find_lem = λ ks k. refl;
  nfind_lem = first_from_zero;
  insert_lem = λ ks k i h. member-insert k i ks;
  remove_lem = λ ks k h. refl;
}
