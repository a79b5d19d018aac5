-- ===== src/Buffer/Audio.antt =====
-- What the functions of src/buffer.c do with the buffer of an audio port: where a write puts its
-- samples, what reads give, and what a copy copies.
use luajack.Prelude.{
  ℕ, zero, suc, ◌+◌, ◌-◌, ◌≤◌, ◌<◌, ◌^◌, ◌≡◌, refl, sym, ap, ◌∙◌, true, Option, none, some, List,
  [], ◌∷◌, ◌++◌, length, take, drop, inl, inr, arith, le→leb, lt→leb, eq→==, ne→==, ℕ-cases,
  length-drop, drop-drop, pos, to_u32, mod-eq_of_lt, drop_all, take_all, append-nil,
}
use luajack.Buffer.{
  Pud, Outcome, returned, raised, overrun, integer, absent, smaller, audio_write, audio_read,
  audio_copy, audio,
}
use luajack.Buffer.Memory.{
  numbers, overwrite, store_all, push_samples_lem, copy_samples_lem, smaller_le,
}

abbrev pub sum : List ℕ → ℕ
sum [] = 0
sum (n ∷ ns) = n + sum ns

-- Numbers that 32 bits hold.
abbrev pub AllShort : List ℕ → Type 0
AllShort [] = Unit
AllShort (n ∷ ns) = (n < 2 ^ 32) × AllShort ns

smaller_self : (a : ℕ) → smaller a a ≡ a
smaller_self a = ground arith

smaller_positive : (a b : ℕ) → 0 < a → 0 < b → ¬ (smaller a b ≡ 0)
smaller_positive a b ha hb = ground arith

module _ {S : Type 0} where
  -- An output port with the buffer `buf` at the position `at`, and an input port.
  abbrev pub out_port : Pud (List S) → List S → ℕ → Pud (List S)
  out_port pud buf at = record pud {
    output = true;
    buf = some buf;
    nframes = length buf;
    bufp = at;
  }

  abbrev pub in_port : Pud (List S) → List S → ℕ → Pud (List S)
  in_port pud buf at = record pud {
    kind = audio;
    input = true;
    buf = some buf;
    nframes = length buf;
    bufp = at;
  }

  -- On an output port with a buffer and a position in it, `write` puts as many of its leading numbers
  -- as there is space for from the position on, leaves the other samples, moves the position behind
  -- them, and returns their number.
  pub audio_write_lem :
      (args : List (Option S)) (pud : Pud (List S)) (buf : List S) (at : ℕ)
      → at ≤ length buf
      → audio_write args (out_port pud buf at) ≡ (
          let vs = take (length buf - at) (numbers args) in
          returned (length vs) (record (out_port pud buf at) {
            buf = some (overwrite at vs buf);
            bufp = at + length vs;
          }))
  unfolding audio_write
  audio_write_lem args pud buf at h =
      rw (le→leb at (length buf) h, store_all args buf at (length buf - at) (omega arith)) refl

  take-add : (a b : ℕ) (xs : List S) → take (a + b) xs ≡ take a xs ++ take b (drop a xs)
  take-add zero b xs = ap (λ k. take k xs) (omega arith)
  take-add (suc a) b [] = take_all (suc a + b) [] (omega arith) ∙ sym (take_all b [] (omega arith))
  take-add (suc a) b (x ∷ xs) =
      ap (λ k. take k (x ∷ xs)) (let e : suc a + b ≡ suc (a + b) = omega arith in e)
      ∙ ap (◌∷◌ x) (take-add a b xs)

  -- One read of `n` samples where some are left.
  audio_read_lem :
      (n : ℕ) (pud : Pud (List S)) (buf : List S) (at : ℕ)
      → n < 2 ^ 32
      → at < length buf
      → audio_read (λ k. true) (integer (pos n)) (in_port pud buf at)
        ≡ returned
            (some (take (smaller n (length buf - at)) (drop at buf)))
            (in_port pud buf (at + smaller n (length buf - at)))
  unfolding audio_read to_u32
  audio_read_lem n pud buf at small h =
      rw
        (
          mod-eq_of_lt small,
          le→leb at (length buf) (omega arith),
          ne→== (length buf - at) 0 (omega arith),
          push_samples_lem (smaller n (length buf - at)) at buf
              (omega (arith, (smaller_le n (length buf - at)).1)),
        )
        refl

  -- At the end of the buffer `read` returns nil.
  audio_read_end :
      (n : ℕ) (pud : Pud (List S)) (buf : List S) (at : ℕ)
      → at ≡ length buf
      → audio_read (λ k. true) (integer (pos n)) (in_port pud buf at)
        ≡ returned none (in_port pud buf at)
  unfolding audio_read
  audio_read_end n pud buf at h =
      rw (le→leb at (length buf) (omega arith), eq→== (length buf - at) 0 (omega arith)) refl

  abbrev followed_by : List S → Option (List S) → Option (List S)
  followed_by vs none = none
  followed_by vs (some ws) = some (vs ++ ws)

  abbrev joined :
      Outcome (Pud (List S)) (Option (List S)) → (Pud (List S) → Option (List S)) → Option (List S)
  joined (returned none p) rest = rest p
  joined (returned (some vs) p) rest = followed_by vs (rest p)
  joined (raised e p) rest = none
  joined overrun rest = none

  -- The samples that reads of the given numbers of samples give one after the other; `none` on an error.
  abbrev pub reads : List ℕ → Pud (List S) → Option (List S)
  reads [] pud = some []
  reads (n ∷ ns) pud = joined (audio_read (λ k. true) (integer (pos n)) pud) (reads ns)

  -- What a read of `n` samples takes, and what later reads take.
  read_then :
      (n rest at : ℕ) (buf : List S)
      → at ≤ length buf
      → take (smaller n (length buf - at)) (drop at buf)
          ++ take rest (drop (at + smaller n (length buf - at)) buf)
        ≡ take (n + rest) (drop at buf)
  read_then n rest at buf h = elim (ℕ-cases n (length buf - at)) [
    | inl le ↦ rw (le→leb _ _ le, ← drop-drop at n buf) (sym (take-add n rest (drop at buf)))
    | inr gt ↦
        rw
          (
            lt→leb _ _ gt,
            drop_all (at + (length buf - at)) buf (omega arith),
            take_all {A = S} rest [] (omega arith),
            take_all (length buf - at) (drop at buf) (omega (arith, length-drop at buf)),
            take_all (n + rest) (drop at buf) (omega (arith, length-drop at buf)),
          )
          (append-nil (drop at buf))
  ]

  -- Reads of any numbers of samples (below 2 ^ 32, with room on the Lua stack), one after the other
  -- from a position in the buffer, give the samples from there on in order, none twice and none left
  -- out, up to the end of the buffer.
  pub reads_in_order :
      (ns : List ℕ) (pud : Pud (List S)) (buf : List S) (at : ℕ)
      → AllShort ns
      → at ≤ length buf
      → reads ns (in_port pud buf at) ≡ some (take (sum ns) (drop at buf))
  reads_in_order [] pud buf at small h = refl
  reads_in_order (n ∷ ns) pud buf at (small, smalls) h = elim (ℕ-cases (length buf) at) [
    | inl end ↦
        rw
          (
            audio_read_end n pud buf at (omega arith),
            reads_in_order ns pud buf at smalls h,
            drop_all at buf end,
            take_all {A = S} (sum ns) [] (omega arith),
            take_all {A = S} (n + sum ns) [] (omega arith),
          )
          refl
    | inr left ↦
        rw
          (
            audio_read_lem n pud buf at small left,
            reads_in_order ns pud buf (at + smaller n (length buf - at)) smalls
                (omega (arith, (smaller_le n (length buf - at)).1)),
          )
          (ap some (read_then n (sum ns) at buf h))
  ]

  -- `copy` without a count, from an audio input port to an output port that both have samples left,
  -- copies as many samples as both have left from the start of the one buffer to the start of the
  -- other, whatever the positions are, and moves both positions by their number.
  pub copy_from_start :
      (target source : Pud (List S)) (to from : List S) (i j : ℕ)
      → i < length to
      → j < length from
      → audio_copy absent (out_port target to i) (in_port source from j) ≡ (
          let n = smaller (length to - i) (length from - j) in
          returned n (
            record (out_port target to i) {
              buf = some (overwrite 0 (take n from) to);
              bufp = i + n;
            },
            in_port source from (j + n),
          ))
  unfolding audio_copy
  copy_from_start target source to from i j hi hj =
      let m = smaller (length to - i) (length from - j) in
      let some_left : ¬ (m ≡ 0) =
        smaller_positive (length to - i) (length from - j) (omega arith) (omega arith) in
      let (le_to, le_from) = smaller_le (length to - i) (length from - j) in
      rw
        (
          le→leb i (length to) (omega arith),
          le→leb j (length from) (omega arith),
          ne→== m 0 some_left,
          smaller_self m,
          ne→== m 0 some_left,
          copy_samples_lem m to from (omega arith) (omega arith),
        )
        refl
