-- ===== src/Database.antt =====
-- The databases of objects, src/cud.c, src/pud.c, src/rud.c and src/tud.c, which are alike. The key of
-- an entry is its address. Of an entry the model has the mark that it is valid; the result of Malloc is
-- an argument, and `freed` lists the addresses given to Free, latest first.
pub mod Api
pub mod References
pub mod Release
pub mod Marks
pub mod Loops
pub mod Model
mod Tests
use luajack.Prelude.{
  ℕ, zero, suc, Bool, true, false, Option, none, some, List, ◌∷◌, ◌==◌, if◌then◌else◌, ◌&&◌,
}
use Api.{Tree}

-- What xud_check does with its argument: luaL_checkinteger may raise an error.
pub data Checked : Type 0 where
  found : ℕ → Checked
  bad_argument invalid_reference : Checked

module _ (t : Tree) where
  open t use {T}

  pub record Database : Type 0 where
    pub tree : T
    pub valid : ℕ → Bool
    pub freed : List ℕ

  abbrev pub mark : ℕ → Bool → (ℕ → Bool) → ℕ → Bool
  mark a b valid i = if i == a then b else valid i

  -- cud_new, pud_new, rud_new, tud_new. The block is zeroed before it is looked for, so an entry that
  -- stands at its address loses its mark. (The zeroing of that entry's links in the tree and of its
  -- other fields has no counterpart here; malloc does not give a block that is in use.)
  unfoldable pub xud_new : Option ℕ → Database → Option ℕ × Database
  xud_new none db = (none, db)
  xud_new (some a) db =
      if t.find db.tree a
      then (none, record db { valid = mark a false db.valid; freed = a ∷ db.freed })
      else (some a, record db { tree = t.insert db.tree a; valid = mark a true db.valid })

  -- CancelCudValid and its like
  unfoldable pub cancel_valid : ℕ → Database → Database
  cancel_valid a db = record db { valid = mark a false db.valid }

  -- cud_check, pud_check, rud_check, tud_check
  pub xud_check : Option ℕ → Database → Checked
  xud_check none db = bad_argument
  xud_check (some k) db =
      if t.find db.tree k
      then (if db.valid k then found k else invalid_reference)
      else invalid_reference

  -- cud_free and its like
  pub xud_free : ℕ → Database → Database
  xud_free a db = record db {
    tree = if t.find db.tree a then t.remove db.tree a else db.tree;
    freed = a ∷ db.freed;
  }

  abbrev free_next : (Database → Option Database) → Option ℕ → Database → Option Database
  free_next rest none db = some db
  free_next rest (some a) db = rest (xud_free a db)

  -- cud_free_all and its like: `while((cud = cud_first(0)))`, `none` if the fuel does not suffice.
  pub xud_free_all : ℕ → Database → Option Database
  xud_free_all zero db = none
  xud_free_all (suc n) db = free_next (xud_free_all n) (t.nfind db.tree 0) db
