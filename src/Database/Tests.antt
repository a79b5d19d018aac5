-- ===== src/Database/Tests.antt =====
-- The theorems of the databases at concrete inputs.
use luajack.Prelude.{◌≡◌, refl, none, some, [], ◌∷◌, ◌==◌, arith}
use luajack.Database.{Database, found, invalid_reference, xud_new, xud_check, xud_free_all}
use luajack.Database.Model.{key_list, key_list-IsTree}
use luajack.Database.References.{create, cancel, uses, new_is_found, stale_stays_stale}
use luajack.Database.Release.{free_all_empties}

-- Two objects at the addresses 10 and 30, the second closed.
abbrev two_objects : Database key_list
two_objects = record { tree = 10 ∷ 30 ∷ []; valid = λ k. k == 10; freed = [] }

address_in_use : (xud_new key_list (some 30) two_objects).0 ≡ none
unfolding xud_new
address_in_use = refl

created : (xud_new key_list (some 20) two_objects).0 ≡ some 20
unfolding xud_new
created = refl

new_is_found_example :
    xud_check key_list (some 20) (xud_new key_list (some 20) two_objects).1 ≡ found 20
new_is_found_example = new_is_found key_list key_list-IsTree 20 20 two_objects created

stale_stays_stale_example :
    xud_check key_list
      (some 30)
      (uses key_list (create (some 30) ∷ create (some 20) ∷ cancel 10 ∷ []) two_objects)
    ≡ invalid_reference
stale_stays_stale_example =
    stale_stays_stale key_list key_list-IsTree
      (create (some 30) ∷ create (some 20) ∷ cancel 10 ∷ []) 30 two_objects refl refl

free_all_empties_example :
    (db : Database key_list) × ((xud_free_all key_list 3 two_objects ≡ some db)
      × ((db.tree ≡ []) × (db.freed ≡ 30 ∷ 10 ∷ [])))
free_all_empties_example =
    free_all_empties key_list key_list-IsTree (10 ∷ 30 ∷ []) 3 two_objects refl (omega arith)
