-- ===== src/Buffer/Memory.antt =====
-- What the loops and block operations of src/buffer.c do with the memory of a buffer.
use luajack.Prelude.{
  ℕ, zero, suc, ◌+◌, ◌-◌, ◌≤◌, ◌<◌, ◌≡◌, refl, sym, ap, ap₂, ◌∙◌, Option, none, some, List, [], ◌∷◌,
  ◌++◌, length, get_elem?, take, drop, replicate, inl, inr, arith, lt→ltb, le→ltb, ne→==, ℕ-cases,
  take-append-drop, take_all, length-append, length-take, length-drop, length-replicate,
  append_assoc,
}
use luajack.Buffer.{smaller, set, store_samples, fill, push_samples, copy_samples}

pub smaller_le : (a b : ℕ) → (smaller a b ≤ a) × (smaller a b ≤ b)
smaller_le a b = ground arith

module _ {S : Type 0} where
  pub length-set : (xs : List S) (i : ℕ) (v : S) → length (set xs i v) ≡ length xs
  length-set [] i v = refl
  length-set (x ∷ xs) zero v = refl
  length-set (x ∷ xs) (suc i) v = ap suc (length-set xs i v)

  pub take-set :
      (xs : List S) (i : ℕ) (v : S)
      → i < length xs
      → take (suc i) (set xs i v) ≡ take i xs ++ (v ∷ [])
  take-set [] i v h = absurd (omega arith)
  take-set (x ∷ xs) zero v h = refl
  take-set (x ∷ xs) (suc i) v h = ap (◌∷◌ x) (take-set xs i v (omega arith))

  pub drop-set : (xs : List S) (i k : ℕ) (v : S) → i < k → drop k (set xs i v) ≡ drop k xs
  drop-set xs i zero v h = absurd (omega arith)
  drop-set [] i (suc k) v h = refl
  drop-set (x ∷ xs) zero (suc k) v h = refl
  drop-set (x ∷ xs) (suc i) (suc k) v h = drop-set xs i k v (omega arith)

  -- The samples at the front of the arguments of `write`.
  abbrev pub numbers : List (Option S) → List S
  numbers [] = []
  numbers (none ∷ args) = []
  numbers (some v ∷ args) = v ∷ numbers args

  -- The buffer with `vs` from the position `at` on.
  abbrev pub overwrite : ℕ → List S → List S → List S
  overwrite at vs buf = take at buf ++ (vs ++ drop (at + length vs) buf)

  overwrite-set :
      (i : ℕ) (v : S) (vs buf : List S)
      → i < length buf
      → overwrite (suc i) vs (set buf i v) ≡ overwrite i (v ∷ vs) buf
  overwrite-set i v vs buf h =
      rw
        (
          take-set buf i v h,
          drop-set buf i (suc i + length vs) v (omega arith),
          append_assoc (take i buf) (v ∷ []) (vs ++ drop (suc i + length vs) buf),
        )
        (ap (λ k. take i buf ++ (v ∷ (vs ++ drop k buf))) (omega arith))

  abbrev pub wrote : List S → ℕ → Option (List S × ℕ)
  wrote b n = some (b, n)

  pub overwrite_nothing : (at : ℕ) (buf : List S) → overwrite at [] buf ≡ buf
  overwrite_nothing at buf =
      ap (λ k. take at buf ++ drop k buf) (omega arith) ∙ take-append-drop at buf

  take_one_more :
      (space n : ℕ) (v : S) (vs : List S)
      → n < space
      → take (space - n) (v ∷ vs) ≡ v ∷ take (space - suc n) vs
  take_one_more space n v vs h =
      ap (λ k. take k (v ∷ vs)) (let e : space - n ≡ suc (space - suc n) = omega arith in e)

  stopped :
      (at n : ℕ) (buf vs : List S)
      → vs ≡ []
      → wrote buf n ≡ wrote (overwrite at vs buf) (n + length vs)
  stopped at n buf vs h = rw h (ap₂ wrote (sym (overwrite_nothing at buf)) (omega arith))

  -- What the loop of AudioWrite leaves.
  pub store_samples_lem :
      (args : List (Option S)) (buf : List S) (at space n : ℕ)
      → at + space ≤ length buf
      → n ≤ space
      → store_samples args buf at space n
        ≡ wrote
            (overwrite (at + n) (take (space - n) (numbers args)) buf)
            (n + length (take (space - n) (numbers args)))
  unfolding store_samples
  store_samples_lem [] buf at space n fits le =
      stopped (at + n) n buf _ (take_all (space - n) [] (omega arith))
  store_samples_lem (none ∷ args) buf at space n fits le =
      stopped (at + n) n buf _ (take_all (space - n) [] (omega arith))
  store_samples_lem (some v ∷ args) buf at space n fits le = elim (ℕ-cases space n) [
    | inl full ↦ rw (le→ltb _ _ full) (
        stopped (at + n) n buf _
          (ap (λ k. take k (v ∷ numbers args)) (let e : space - n ≡ 0 = omega arith in e)))
    | inr room ↦
        rw
          (
            lt→ltb _ _ room,
            lt→ltb (at + n) (length buf) (omega arith),
            store_samples_lem args (set buf (at + n) v) at space (suc n)
                (omega (arith, length-set buf (at + n) v)) (omega arith),
            take_one_more space n v (numbers args) room,
          )
          (ap₂ wrote
            (ap (λ k. overwrite k (take (space - suc n) (numbers args)) (set buf (at + n) v))
                (let e : at + suc n ≡ suc (at + n) = omega arith in e)
              ∙ overwrite-set (at + n) v (take (space - suc n) (numbers args)) buf (omega arith))
            (omega arith))
  ]

  pub length-overwrite :
      (at : ℕ) (vs buf : List S)
      → at + length vs ≤ length buf
      → length (overwrite at vs buf) ≡ length buf
  length-overwrite at vs buf h = omega (
    arith,
    length-append (take at buf) (vs ++ drop (at + length vs) buf),
    length-append vs (drop (at + length vs) buf),
    length-take at buf,
    length-drop (at + length vs) buf,
  )

  pub fill_lem :
      (v : S) (buf : List S) (at n : ℕ)
      → at + n ≤ length buf
      → fill v buf at n ≡ wrote (overwrite at (replicate n v) buf) n
  unfolding fill
  fill_lem v buf at zero h = ap (λ b. wrote b 0) (sym (overwrite_nothing at buf))
  fill_lem v buf at (suc n) h =
      rw
        (
          ne→== (suc n) 0 (omega arith),
          le→ltb (length buf) (at + suc n) h,
          length-replicate (suc n) v,
        )
        refl

  -- The sample at a position inside the buffer.
  pub sample_at :
      (buf : List S) (at : ℕ)
      → at < length buf
      → (v : S) × ((get_elem? buf at ≡ some v) × (drop at buf ≡ v ∷ drop (suc at) buf))
  sample_at [] at h = absurd (omega arith)
  sample_at (x ∷ xs) zero h = (x, (refl, refl))
  sample_at (x ∷ xs) (suc at) h = sample_at xs at (omega arith)

  pub push_samples_lem :
      (n at : ℕ) (buf : List S)
      → at + n ≤ length buf
      → push_samples n at buf ≡ some (take n (drop at buf))
  unfolding push_samples
  push_samples_lem zero at buf h = refl
  push_samples_lem (suc n) at buf h =
      let (v, (found, rest)) = sample_at buf at (omega arith) in
      rw (found, push_samples_lem n (suc at) buf (omega arith), rest) refl

  pub copy_samples_lem :
      (n : ℕ) (target source : List S)
      → n ≤ length target
      → n ≤ length source
      → copy_samples n target source ≡ some (overwrite 0 (take n source) target)
  unfolding copy_samples
  copy_samples_lem n target source h k =
      rw (le→ltb (length target) n h, le→ltb (length source) n k)
        (ap (λ i. some (take n source ++ drop i target)) (omega (arith, length-take n source)))

  pub store_all :
      (args : List (Option S)) (buf : List S) (at space : ℕ)
      → at + space ≤ length buf
      → store_samples args buf at space 0
        ≡ wrote (overwrite at (take space (numbers args)) buf) (length (take space (numbers args)))
  store_all args buf at space h =
      store_samples_lem args buf at space 0 h (omega arith)
      ∙ (ap
            (λ i.
              wrote (overwrite i (take (space - 0) (numbers args)) buf)
                (0 + length (take (space - 0) (numbers args))))
            (let e : at + 0 ≡ at = omega arith in e)
          ∙ (ap
                (λ i.
                  wrote (overwrite at (take i (numbers args)) buf)
                    (0 + length (take i (numbers args))))
                (let e : space - 0 ≡ space = omega arith in e)
              ∙ ap (wrote (overwrite at (take space (numbers args)) buf)) (omega arith)))
