-- ===== src/Database/Marks.antt =====
-- The marks of the entries that are valid.
use luajack.Prelude.{
  differ, ◌∙◌, sym, ap, ℕ, ◌≡◌, refl, subst, Bool, true, false, Option, none, some, ◌==◌,
  if◌then◌else◌, if_both,
}
use luajack.Database.{Database, found, invalid_reference, xud_new, xud_check, cancel_valid}
use luajack.Database.Api.{Tree, IsTree}

-- The marks with the new entry, if there is one.
abbrev pub marked : Option ℕ → (ℕ → Bool) → ℕ → Bool
marked none valid i = valid i
marked (some a) valid i = if i == a then true else valid i

module _ (t : Tree) where
  pub new_valid :
      (addr : Option ℕ) (db : Database t) (i : ℕ)
      → let u = xud_new t addr db in u.1.valid i ≡ true → marked u.0 db.valid i ≡ true
  unfolding xud_new
  new_valid none db i = λ v. v
  new_valid (some a) db i =
      if_both (λ (u : Option ℕ × Database t). u.1.valid i ≡ true → marked u.0 db.valid i ≡ true)
        (t.find db.tree a)
        (if_both (λ b. b ≡ true → db.valid i ≡ true) (i == a) (λ e. absurd (differ (sym e)))
          (λ v. v))
        (λ v. v)

  pub cancel_lem :
      (a i : ℕ) (db : Database t)
      → (cancel_valid t a db).valid i ≡ (if i == a then false else db.valid i)
  unfolding cancel_valid
  cancel_lem a i db = refl

  pub cancelled_before :
      (a i : ℕ) (db : Database t) → (cancel_valid t a db).valid i ≡ true → db.valid i ≡ true
  unfolding cancel_valid
  cancelled_before a i db =
      if_both (λ b. b ≡ true → db.valid i ≡ true) (i == a) (λ e. absurd (differ (sym e))) (λ v. v)

  pub cancel_tree : (a : ℕ) (db : Database t) → (cancel_valid t a db).tree ≡ db.tree
  unfolding cancel_valid
  cancel_tree a db = refl

  check_found :
      (k a : ℕ) (here valid : Bool)
      → (if here then (if valid then found k else invalid_reference) else invalid_reference)
        ≡ found a
      → (k ≡ a) × (valid ≡ true)
  check_found k a true true h = (cc, refl)
  check_found k a true false h = cc
  check_found k a false valid h = cc

  -- A reference that is accepted is that of a valid entry.
  pub found_valid :
      (k : Option ℕ) (a : ℕ) (db : Database t) → xud_check t k db ≡ found a → db.valid a ≡ true
  unfolding xud_check
  found_valid none a db h = cc
  found_valid (some k) a db h =
      let r = check_found k a (t.find db.tree k) (db.valid k) h in
      subst (λ x. db.valid x ≡ true) r.0 r.1

module _ (t : Tree) (doc : IsTree t) where
  -- What creation does: nothing, or an entry at an address that had none.
  abbrev pub IsNew : Database t → Option ℕ × Database t → Type 0
  IsNew db (none, made) = (made.tree ≡ db.tree) × (made.valid ≡ db.valid)
  IsNew db (some a, made) =
      (t.find db.tree a ≡ false)
      × ((i : ℕ) → t.find made.tree i ≡ (if i == a then true else t.find db.tree i))
      × ((i : ℕ) → made.valid i ≡ (if i == a then true else db.valid i))

  -- Malloc gives NULL, or a block that is not in use.
  abbrev pub IsFresh : Option ℕ → Database t → Type 0
  IsFresh none db = Unit
  IsFresh (some a) db = t.find db.tree a ≡ false

  pub xud_new-IsNew :
      (addr : Option ℕ) (db : Database t) → IsFresh addr db → IsNew db (xud_new t addr db)
  unfolding xud_new
  xud_new-IsNew none db fresh = (refl, refl)
  xud_new-IsNew (some a) db free = rw free (
    free,
    λ i.
        doc.find_lem (t.insert db.tree a) i
        ∙ (doc.insert_lem db.tree a i (sym (doc.find_lem db.tree a) ∙ free)
            ∙ ap (λ b. if i == a then true else b) (sym (doc.find_lem db.tree i))),
    λ i. refl,
  )
