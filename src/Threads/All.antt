-- ===== src/Threads/All.antt =====
-- thread_free_all of src/thread.c over the database of src/tud.c. What thread_free does to one thread is
-- in `Threads`; here it is the mark of the entry.
use luajack.Prelude.{
  ℕ, ◌≡◌, refl, sym, ap, ◌∙◌, subst, inl, inr, true, false, List, [], ◌∷◌, ◌==◌, ◌&&◌,
  if◌then◌else◌, if_both, Bool-cases, if_true, eq→==,
}
use luajack.Database.{Database, cancel_valid}
use luajack.Database.Api.{Tree, member}
use luajack.Database.Marks.{cancel_lem, cancelled_before}
use luajack.Database.Loops.{rounds, rounds_leave}

module _ (t : Tree) where
  -- The entries with their clients.
  pub record Tuds : Type 0 where
    pub db : Database t
    pub cud : ℕ → ℕ

  abbrev thread_freed : ℕ → Tuds → Tuds
  thread_freed a st = record st { db = cancel_valid t a st.db }

  -- The loop over the entries that tud_first and tud_next give one after the other.
  pub thread_free_all : ℕ → List ℕ → Tuds → Tuds
  thread_free_all client [] st = st
  thread_free_all client (a ∷ rest) st =
      let freed = if st.db.valid a && (st.cud a == client) then thread_freed a st else st in
      thread_free_all client rest freed

  abbrev free_one : ℕ → ℕ → Tuds → Tuds
  free_one client a st = if st.db.valid a && (st.cud a == client) then thread_freed a st else st

  free_one_cud : (client a : ℕ) (st : Tuds) → (free_one client a st).cud ≡ st.cud
  free_one_cud client a st =
      if_both (λ (z : Tuds). z.cud ≡ st.cud) (st.db.valid a && (st.cud a == client)) refl refl

  free_one_before :
      (client a i : ℕ) (st : Tuds) → (free_one client a st).db.valid i ≡ true → st.db.valid i ≡ true
  free_one_before client a i st =
      if_both (λ (z : Tuds). z.db.valid i ≡ true → st.db.valid i ≡ true)
        (st.db.valid a && (st.cud a == client)) (cancelled_before t a i st.db) (λ v. v)

  free_one_frees :
      (client a : ℕ) (st : Tuds)
      → (st.cud a == client) ≡ true
      → (free_one client a st).db.valid a ≡ false
  free_one_frees client a st own = elim (Bool-cases (st.db.valid a)) [
    | inl here ↦
        rw (here, own)
          (cancel_lem t a a st.db ∙ if_true (a == a) false (st.db.valid a) (eq→== a a refl))
    | inr not_here ↦ rw not_here not_here
  ]

  all_rounds :
      (client : ℕ) (visited : List ℕ) (st : Tuds)
      → thread_free_all client visited st
        ≡ rounds
            (λ s. s.db.valid)
            (λ s. s.cud)
            client
            (free_one client)
            (λ a i s. ap (λ f. f i) (free_one_cud client a s))
            (free_one_before client)
            (free_one_frees client)
            visited
            st
  unfolding thread_free_all
  all_rounds client [] st = refl
  all_rounds client (a ∷ rest) st = all_rounds client rest (free_one client a st)

  -- After thread_free_all over all valid entries, what is still valid is another client's.
  pub thread_free_all_leaves :
      (client : ℕ) (visited : List ℕ) (i : ℕ) (st : Tuds)
      → ((a : ℕ) → st.db.valid a ≡ true → member a visited ≡ true)
      → let after = thread_free_all client visited st in
        after.db.valid i ≡ true → (after.cud i == client) ≡ false
  thread_free_all_leaves client visited i st all =
      subst (λ (z : Tuds). z.db.valid i ≡ true → (z.cud i == client) ≡ false)
        (sym (all_rounds client visited st))
        (rounds_leave (λ s. s.db.valid) (λ s. s.cud) client (free_one client)
          (λ a i s. ap (λ f. f i) (free_one_cud client a s)) (free_one_before client)
          (free_one_frees client) visited i st all)
