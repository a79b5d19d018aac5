-- ===== src/Database/Api.antt =====
-- The red-black trees of src/tree.h, a copy of BSD's, with addresses as keys, and what the databases
-- rely on: the keys in order.
use luajack.Prelude.{
  ℕ, ◌≡◌, Bool, true, false, Option, none, some, List, [], ◌∷◌, ◌==◌, if◌then◌else◌,
}

pub record Tree : Type 1 where
  pub T : Type 0
  -- RB_FIND, as whether there is one, and RB_NFIND
  pub find : T → ℕ → Bool
  pub nfind : T → ℕ → Option ℕ
  -- RB_INSERT and RB_REMOVE
  pub insert : T → ℕ → T
  pub remove : T → ℕ → T

abbrev pub member : ℕ → List ℕ → Bool
member k [] = false
member k (x ∷ xs) = if k == x then true else member k xs

abbrev pub delete : ℕ → List ℕ → List ℕ
delete k [] = []
delete k (x ∷ xs) = if k == x then xs else x ∷ delete k xs

abbrev pub head : List ℕ → Option ℕ
head [] = none
head (x ∷ xs) = some x

module _ (t : Tree) where
  open t use {T, find, nfind, insert, remove}

  pub record IsTree : Type 0 where
    -- the keys in the tree, the least first
    pub keys : T → List ℕ
    pub find_lem : (a : T) (k : ℕ) → find a k ≡ member k (keys a)
    pub nfind_lem : (a : T) → nfind a 0 ≡ head (keys a)
    pub insert_lem :
        (a : T) (k i : ℕ)
        → member k (keys a) ≡ false
        → member i (keys (insert a k)) ≡ (if i == k then true else member i (keys a))
    pub remove_lem :
        (a : T) (k : ℕ) → member k (keys a) ≡ true → keys (remove a k) ≡ delete k (keys a)
