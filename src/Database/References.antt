-- ===== src/Database/References.antt =====
-- The references that scripts hold: a new one is good, and a stale one never becomes good again.
use luajack.Prelude.{
  differ, ℕ, ◌≡◌, refl, sym, ap, if_both, ==_iff, ◌∙◌, Bool, true, false, Option, none, some, List,
  [], ◌∷◌, ◌==◌, if◌then◌else◌, Bool-cases, inl, inr,
}
use luajack.Database.{Database, found, invalid_reference, xud_new, xud_check, cancel_valid}
use luajack.Database.Api.{Tree, IsTree, member}

-- What other parts of the program do with a database while it runs.
pub data Use : Type 0 where
  create : Option ℕ → Use
  cancel : ℕ → Use

module _ (t : Tree) where
  abbrev pub use_database : Use → Database t → Database t
  use_database (create answer) db = (xud_new t answer db).1
  use_database (cancel k) db = cancel_valid t k db

  abbrev pub uses : List Use → Database t → Database t
  uses [] db = db
  uses (u ∷ us) db = uses us (use_database u db)

Bool-both : (b : Bool) (P : Bool → Type 0) → P true → P false → P b
Bool-both true P p q = p
Bool-both false P p q = q

abbrev taken_or_new : {A : Type 0} → Bool → ℕ → A → A → Option ℕ × A
taken_or_new b a x y = if b then (none, x) else (some a, y)

created_free :
    {A : Type 0} (a : ℕ) (b : Bool) (x y : A) → (taken_or_new b a x y).0 ≡ some a → b ≡ false
created_free a true x y h = cc
created_free a false x y h = refl

answer_of : {A : Type 0} (a c : ℕ) (b : Bool) (x y : A) → (taken_or_new b a x y).0 ≡ some c → a ≡ c
answer_of a c true x y h = cc
answer_of a c false x y h = cc

different_key :
    (t : Tree) (tree : t.T) (k a : ℕ)
    → t.find tree k ≡ true
    → t.find tree a ≡ false
    → (k == a) ≡ false
different_key t tree k a there absent = elim (Bool-cases (k == a)) [
  | inl same ↦
      let e : k ≡ a = (==_iff k a).0 same in
      absurd (differ (sym there ∙ (ap (t.find tree) e ∙ absent)))
  | inr other ↦ other
]

module _ (t : Tree) (doc : IsTree t) where
  open doc use {keys, find_lem, insert_lem}

  -- When a new object is created, the reference returned is accepted, and what any other reference
  -- is to `xud_check` stays as it was.
  pub new_is_found :
      (a k : ℕ) (db : Database t)
      → (xud_new t (some a) db).0 ≡ some a
      → xud_check t (some k) (xud_new t (some a) db).1
        ≡ (if k == a then found k else xud_check t (some k) db)
  unfolding xud_new xud_check
  new_is_found a k db created =
      let free = created_free a (t.find db.tree a) _ _ created in
      let absent : member a (keys db.tree) ≡ false = sym (find_lem db.tree a) ∙ free in
      rw (free, find_lem (t.insert db.tree a) k, insert_lem db.tree a k absent, find_lem db.tree k)
        (Bool-both (k == a)
          (λ b.
            (if (if b then true else member k (keys db.tree))
              then (if (if b then true else db.valid k) then found k else invalid_reference)
              else invalid_reference)
            ≡ (if b
                then found k
                else (if member k (keys db.tree)
                    then (if db.valid k then found k else invalid_reference)
                    else invalid_reference)))
          refl refl)

  -- The address of a new object is the one that Malloc gave.
  pub new_answer : (a b : ℕ) (db : Database t) → (xud_new t (some a) db).0 ≡ some b → a ≡ b
  unfolding xud_new
  new_answer a b db = answer_of a b (t.find db.tree a) _ _

  abbrev Stale : ℕ → Database t → Type 0
  Stale k db = (t.find db.tree k ≡ true) × (db.valid k ≡ false)

  use-Stale :
      (u : Use) (k : ℕ) (db : Database t)
      → t.find db.tree k ≡ true
      → db.valid k ≡ false
      → Stale k (use_database t u db)
  unfolding xud_new cancel_valid
  use-Stale (create none) k db there stale = (there, stale)
  use-Stale (create (some a)) k db there stale = elim (Bool-cases (t.find db.tree a)) [
    | inl taken ↦ rw (taken, use_database) (there, if_both (λ b. b ≡ false) (k == a) refl stale)
    | inr free ↦
        let other : (k == a) ≡ false = different_key t db.tree k a there free in
        rw (free, use_database)
          (
            find_lem (t.insert db.tree a) k
                ∙ (insert_lem db.tree a k (sym (find_lem db.tree a) ∙ free)
                    ∙ rw other (sym (find_lem db.tree k) ∙ there)),
            rw other stale,
          )
  ]
  use-Stale (cancel a) k db there stale = (there, if_both (λ b. b ≡ false) (k == a) refl stale)

  -- The reference to an object that was closed, whose entry is still in the database, is refused by
  -- `xud_check` whatever objects are created and closed afterwards, and whatever addresses Malloc
  -- gives for them: no new object takes the place of the closed one.
  pub stale_stays_stale :
      (us : List Use) (k : ℕ) (db : Database t)
      → t.find db.tree k ≡ true
      → db.valid k ≡ false
      → xud_check t (some k) (uses t us db) ≡ invalid_reference
  unfolding xud_check
  stale_stays_stale [] k db there stale = rw (there, stale) refl
  stale_stays_stale (u ∷ us) k db there stale =
      let (there2, stale2) = use-Stale u k db there stale in
      stale_stays_stale us k (use_database t u db) there2 stale2
