-- ===== src/Ports/Pairing.antt =====
-- Entries and the ports they stand for, one to one.
use luajack.Prelude.{
  if_both, ℕ, ◌≡◌, refl, sym, ap, ◌∙◌, Bool, true, false, ◌==◌, if◌then◌else◌, Bool-cases, inl, inr,
  ◌⊎◌, ==_iff, if_true, if_false, differ, eq→==,
}

-- The two ways a number compares with another.
at_cases : (i a : ℕ) → ((i ≡ a) × ((i == a) ≡ true)) ⊎ ((i == a) ≡ false)
at_cases i a = elim (Bool-cases (i == a)) [
  | inl same ↦ inl ((==_iff i a).0 same, same)
  | inr other ↦ inr other
]

abbrev pub without : ℕ → (ℕ → Bool) → ℕ → Bool
without a valid i = if i == a then false else valid i

abbrev pub with_one : ℕ → (ℕ → Bool) → ℕ → Bool
with_one a valid i = if i == a then true else valid i

-- What is left is another one, and was there before.
pub without_other :
    (a i : ℕ) (valid : ℕ → Bool) → without a valid i ≡ true → ((i == a) ≡ false) × (valid i ≡ true)
without_other a i valid h = elim (Bool-cases (i == a)) [
  | inl same ↦ absurd (differ (sym h ∙ if_true (i == a) false (valid i) same))
  | inr other ↦ (other, sym (if_false (i == a) false (valid i) other) ∙ h)
]

-- The valid entries are those of the ports that are registered.
pub record IsPaired (valid : ℕ → Bool) (port : ℕ → ℕ) (owned : ℕ → Bool) : Type 0 where
  pub live : (a : ℕ) → valid a ≡ true → owned (port a) ≡ true
  pub single : (a b : ℕ) → valid a ≡ true → valid b ≡ true → port a ≡ port b → a ≡ b
  pub known : (p : ℕ) → owned p ≡ true → (a : ℕ) × (valid a ≡ true) × (port a ≡ p)

pub close-IsPaired :
    (valid : ℕ → Bool) (port : ℕ → ℕ) (owned : ℕ → Bool) (a : ℕ)
    → valid a ≡ true
    → IsPaired valid port owned
    → IsPaired (without a valid) port (without (port a) owned)
close-IsPaired valid port owned a here paired = record {
  live = λ i v.
      let (other, old) = without_other a i valid v in
      elim (at_cases (port i) (port a)) [
        | inl same ↦
            let e : i ≡ a = paired.single i a old here same.0 in
            absurd (differ (sym (eq→== i a e) ∙ other))
        | inr different ↦
            if_false (port i == port a) false (owned (port i)) different ∙ paired.live i old
      ];
  single = λ i j v w. paired.single i j (without_other a i valid v).1 (without_other a j valid w).1;
  known = λ p h.
      let (other, old) = without_other (port a) p owned h in
      let (b, is_valid, e) = paired.known p old in
      elim (at_cases b a) [
        | inl same ↦
            let q : p ≡ port a = sym e ∙ ap port same.0 in
            absurd (differ (sym (eq→== p (port a) q) ∙ other))
        | inr different ↦ (b, if_false (b == a) false (valid b) different ∙ is_valid, e)
      ];
}

abbrev pub with_port : ℕ → ℕ → (ℕ → ℕ) → ℕ → ℕ
with_port a p port i = if i == a then p else port i

-- A valid entry after the creation of another is the new one or an old one.
pub with_one_cases :
    (a i : ℕ) (valid : ℕ → Bool)
    → with_one a valid i ≡ true
    → ((i ≡ a) × ((i == a) ≡ true)) ⊎ (((i == a) ≡ false) × (valid i ≡ true))
with_one_cases a i valid h = elim (at_cases i a) [
  | inl same ↦ inl same
  | inr other ↦ inr (other, sym (if_false (i == a) true (valid i) other) ∙ h)
]

old_is_kept : (a i : ℕ) (valid : ℕ → Bool) → valid i ≡ true → with_one a valid i ≡ true
old_is_kept a i valid v = if_both (λ b. b ≡ true) (i == a) refl v

-- A number that is put in and taken out again.
pub without-with_one :
    (p q : ℕ) (owned : ℕ → Bool) → owned p ≡ false → without p (with_one p owned) q ≡ owned q
without-with_one p q owned unknown = elim (at_cases q p) [
  | inl same ↦ if_true (q == p) false (with_one p owned q) same.1 ∙ sym (ap owned same.0 ∙ unknown)
  | inr other ↦
      if_false (q == p) false (with_one p owned q) other ∙ if_false (q == p) true (owned q) other
]

-- Functions that agree at every number serve as well.
pub same-IsPaired :
    (valid valid2 : ℕ → Bool) (port port2 : ℕ → ℕ) (owned owned2 : ℕ → Bool)
    → ((i : ℕ) → valid2 i ≡ valid i)
    → ((i : ℕ) → port2 i ≡ port i)
    → ((q : ℕ) → owned2 q ≡ owned q)
    → IsPaired valid port owned
    → IsPaired valid2 port2 owned2
same-IsPaired valid valid2 port port2 owned owned2 v e o paired = record {
  live = λ a h. o (port2 a) ∙ (ap owned (e a) ∙ paired.live a (sym (v a) ∙ h));
  single =
      λ a b h g same. paired.single a b (sym (v a) ∙ h) (sym (v b) ∙ g) (sym (e a) ∙ (same ∙ e b));
  known = λ p h.
      let (a, is_valid, is_p) = paired.known p (sym (o p) ∙ h) in (a, v a ∙ is_valid, e a ∙ is_p);
}

module _ (valid : ℕ → Bool) (port : ℕ → ℕ) (owned : ℕ → Bool) (a p : ℕ) (unused : valid a ≡ false)
    (unknown : owned p ≡ false) (paired : IsPaired valid port owned) where
  abbrev was : (i : ℕ) → (i == a) ≡ false → with_port a p port i ≡ port i
  was i other = if_false (i == a) p (port i) other

  abbrev now : (i : ℕ) → (i == a) ≡ true → with_port a p port i ≡ p
  now i same = if_true (i == a) p (port i) same

  -- The port of an old entry is another one.
  old_port : (i : ℕ) → valid i ≡ true → ¬ (port i ≡ p)
  old_port i v e = differ (sym (paired.live i v) ∙ (ap owned e ∙ unknown))

  new_single :
      (i j : ℕ)
      → with_one a valid i ≡ true
      → with_one a valid j ≡ true
      → with_port a p port i ≡ with_port a p port j
      → i ≡ j
  new_single i j v w e = elim (with_one_cases a i valid v) [
    | inl (i_new, i_same) ↦ elim (with_one_cases a j valid w) [
      | inl (j_new, j_same) ↦ i_new ∙ sym j_new
      | inr (j_other, j_old) ↦
          absurd (old_port j j_old (sym (was j j_other) ∙ (sym e ∙ now i i_same)))
    ]
    | inr (i_other, i_old) ↦ elim (with_one_cases a j valid w) [
      | inl (j_new, j_same) ↦ absurd (old_port i i_old (sym (was i i_other) ∙ (e ∙ now j j_same)))
      | inr (j_other, j_old) ↦
          paired.single i j i_old j_old (sym (was i i_other) ∙ (e ∙ was j j_other))
    ]
  ]

  new_known :
      (q : ℕ)
      → with_one p owned q ≡ true
      → (b : ℕ) × (with_one a valid b ≡ true) × (with_port a p port b ≡ q)
  new_known q h = elim (with_one_cases p q owned h) [
    | inl (q_new, q_same) ↦
        let same = eq→== a a refl in
        (a, if_true (a == a) true (valid a) same, now a same ∙ sym q_new)
    | inr (q_other, q_old) ↦
        let (b, b_valid, e) = paired.known q q_old in
        elim (at_cases b a) [
          | inl same ↦ absurd (differ (sym b_valid ∙ (ap valid same.0 ∙ unused)))
          | inr other ↦ (b, old_is_kept a b valid b_valid, was b other ∙ e)
        ]
  ]

  pub new-IsPaired : IsPaired (with_one a valid) (with_port a p port) (with_one p owned)
  new-IsPaired = record {
    live = λ i v. elim (with_one_cases a i valid v) [
      | inl (i_new, i_same) ↦
          if_true (with_port a p port i == p) true (owned (with_port a p port i))
            (eq→== (with_port a p port i) p (now i i_same))
      | inr (i_other, i_old) ↦
          old_is_kept p (with_port a p port i) owned
            (ap owned (was i i_other) ∙ paired.live i i_old)
    ];
    single = new_single;
    known = new_known;
  }
