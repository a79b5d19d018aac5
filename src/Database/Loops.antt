-- ===== src/Database/Loops.antt =====
-- The loops over a database that close the objects of one client: thread_free_all, rbuf_free_all and
-- port_close_all.
use luajack.Prelude.{
  ℕ, ◌≡◌, refl, sym, ap, ◌∙◌, subst, inl, inr, Bool, true, false, List, [], ◌∷◌, ◌==◌, Bool-cases,
  if_false, differ, ==_iff,
}
use luajack.Database.Api.{member}

stays_false : (b c : Bool) → (b ≡ true → c ≡ true) → c ≡ false → b ≡ false
stays_false true c h e = absurd (differ (sym (h refl) ∙ e))
stays_false false c h e = refl

-- A state with the marks and the clients of its entries, and a round of the loop, which closes the entry
-- of the client and makes no other valid.
module _ {S : Type 0} (valid : S → ℕ → Bool) (cud : S → ℕ → ℕ) (client : ℕ) (round : ℕ → S → S)
    (round_cud : (a i : ℕ) (s : S) → cud (round a s) i ≡ cud s i)
    (round_before : (a i : ℕ) (s : S) → valid (round a s) i ≡ true → valid s i ≡ true)
    (round_closes : (a : ℕ) (s : S)
      → (cud s a == client) ≡ true
      → valid (round a s) a ≡ false) where
  abbrev pub rounds : List ℕ → S → S
  rounds [] s = s
  rounds (a ∷ rest) s = rounds rest (round a s)

  pub rounds_cud : (visited : List ℕ) (i : ℕ) (s : S) → cud (rounds visited s) i ≡ cud s i
  rounds_cud [] i s = refl
  rounds_cud (a ∷ rest) i s = rounds_cud rest i (round a s) ∙ round_cud a i s

  pub rounds_before :
      (visited : List ℕ) (i : ℕ) (s : S) → valid (rounds visited s) i ≡ true → valid s i ≡ true
  rounds_before [] i s v = v
  rounds_before (a ∷ rest) i s v = round_before a i s (rounds_before rest i (round a s) v)

  -- No entry that was visited is a valid one of the client.
  pub rounds_close :
      (visited : List ℕ) (i : ℕ) (s : S)
      → member i visited ≡ true
      → (cud s i == client) ≡ true
      → valid (rounds visited s) i ≡ false
  rounds_close [] i s m own = absurd (differ (sym m))
  rounds_close (a ∷ rest) i s m own = elim (Bool-cases (i == a)) [
    | inl same ↦
        let is_a = (==_iff i a).0 same in
        let gone = round_closes a s (subst (λ x. (cud s x == client) ≡ true) is_a own) in
        stays_false _ _ (rounds_before rest i (round a s))
          (subst (λ x. valid (round a s) x ≡ false) (sym is_a) gone)
    | inr other ↦
        rounds_close rest i (round a s) (sym (if_false (i == a) true (member i rest) other) ∙ m)
          (ap (λ x. x == client) (round_cud a i s) ∙ own)
  ]

  -- What is valid after the loop over all valid entries is another client's.
  pub rounds_leave :
      (visited : List ℕ) (i : ℕ) (s : S)
      → ((a : ℕ) → valid s a ≡ true → member a visited ≡ true)
      → valid (rounds visited s) i ≡ true
      → (cud (rounds visited s) i == client) ≡ false
  rounds_leave visited i s all v = elim (Bool-cases (cud s i == client)) [
    | inl own ↦
        absurd (differ (sym v ∙ rounds_close visited i s (all i (rounds_before visited i s v)) own))
    | inr other ↦ ap (λ x. x == client) (rounds_cud visited i s) ∙ other
  ]
