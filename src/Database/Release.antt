-- ===== src/Database/Release.antt =====
-- The release of all entries of a database when the program exits.
use luajack.Prelude.{
  ℕ, zero, suc, ◌<◌, ◌≡◌, refl, ap, ◌∙◌, true, some, List, [], ◌∷◌, length, arith, eq→==,
}
use luajack.Database.{Database, xud_free, xud_free_all}
use luajack.Database.Api.{Tree, IsTree, member, delete, head}

-- The addresses `ks` given to Free one after the other, before those of `freed`.
abbrev pub freed_after : List ℕ → List ℕ → List ℕ
freed_after [] freed = freed
freed_after (k ∷ ks) freed = freed_after ks (k ∷ freed)

module _ (t : Tree) (doc : IsTree t) where
  open doc use {keys, find_lem, nfind_lem, remove_lem}

  -- The entry of the least key is removed and freed.
  free_first :
      (k : ℕ) (ks : List ℕ) (db : Database t)
      → keys db.tree ≡ k ∷ ks
      → (keys (xud_free t k db).tree ≡ ks) × ((xud_free t k db).freed ≡ k ∷ db.freed)
  unfolding xud_free
  free_first k ks db h =
      let there : member k (keys db.tree) ≡ true = ap (member k) h ∙ rw (eq→== k k refl) refl in
      (
        rw (find_lem db.tree k ∙ there)
            (remove_lem db.tree k there ∙ (ap (delete k) h ∙ rw (eq→== k k refl) refl)),
        refl,
      )

  -- The loop of `xud_free_all` ends once it has as many rounds as there are entries and one more; then
  -- the database is empty, and each of its entries was given to Free once, in the order of the keys.
  pub free_all_empties :
      (ks : List ℕ) (n : ℕ) (db : Database t)
      → keys db.tree ≡ ks
      → length ks < n
      → (db2 : Database t) × ((xud_free_all t n db ≡ some db2)
          × ((keys db2.tree ≡ []) × (db2.freed ≡ freed_after ks db.freed)))
  unfolding xud_free_all
  free_all_empties ks zero db h lt = absurd (omega arith)
  free_all_empties [] (suc n) db h lt = (db, (rw (nfind_lem db.tree ∙ ap head h) refl, (h, refl)))
  free_all_empties (k ∷ ks) (suc n) db h lt =
      let (left, freed) = free_first k ks db h in
      let (db2, (done, (empty, all))) =
        free_all_empties ks n (xud_free t k db) left (omega arith) in
      (db2, (rw (nfind_lem db.tree ∙ ap head h) done, (empty, all ∙ ap (freed_after ks) freed)))
