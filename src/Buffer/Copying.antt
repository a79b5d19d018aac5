-- ===== src/Buffer/Copying.antt =====
-- AudioCopy of src/buffer.c stays inside of the two buffers.
use luajack.Prelude.{
  Bool, ℕ, ◌+◌, ◌≤◌, ◌≡◌, refl, sym, subst, Option, none, some, List, length, take, ◌==◌, arith,
  if_both, length-take,
}
use luajack.Buffer.{
  Pud, Outcome, returned, raised, overrun, Error, no_buffer, bad_argument, IntArg, smaller, avail,
  audio_copy, opt_u32, check, or_raise, is_audio, invalid_source, source_not_input,
  target_not_output, copy_some, copied,
}
use luajack.Buffer.Memory.{length-overwrite, smaller_le, overwrite, copy_samples_lem}
use luajack.Buffer.Safety.{Fits, IsValid, bufp-avail}

-- The outcome is no access outside of the buffers, and both ports are valid after it.
abbrev pub BothSafe : {S A : Type 0} → Outcome (Pud (List S) × Pud (List S)) A → Type 0
BothSafe (returned a (target, source)) = IsValid target × IsValid source
BothSafe (raised e (target, source)) = IsValid target × IsValid source
BothSafe overrun = ⊥

module _ {S : Type 0} where
  check-BothSafe :
      (c : Bool) (e : Error) (target source : Pud (List S))
      (k : Outcome (Pud (List S) × Pud (List S)) ℕ)
      → IsValid target × IsValid source
      → BothSafe k
      → BothSafe (check c e (target, source) k)
  check-BothSafe c e target source k valid safe = if_both (BothSafe {S = S} {A = ℕ}) c safe valid

  raise-BothSafe :
      {B : Type 0} (o : Option B) (e : Error) (target source : Pud (List S))
      (k : B → Outcome (Pud (List S) × Pud (List S)) ℕ)
      → IsValid target × IsValid source
      → ((b : B) → BothSafe (k b))
      → BothSafe (or_raise o e (target, source) k)
  raise-BothSafe none e target source k valid safe = valid
  raise-BothSafe (some b) e target source k valid safe = safe b

  buffer-BothSafe :
      (o : Option (List S)) (n p : ℕ) (target source : Pud (List S))
      (k : List S → Outcome (Pud (List S) × Pud (List S)) ℕ)
      → Fits o n p
      → IsValid target × IsValid source
      → ((b : List S) → o ≡ some b → length b ≡ n → p ≤ n → BothSafe (k b))
      → BothSafe (or_raise o no_buffer (target, source) k)
  buffer-BothSafe none n p target source k fits valid safe = valid
  buffer-BothSafe (some b) n p target source k (len, le) valid safe = safe b refl len le

  -- A copy of `n` samples that both ports have left.
  copy_some-BothSafe :
      (n : ℕ) (b c : List S) (target source : Pud (List S))
      → source.buf ≡ some c
      → length b ≡ target.nframes
      → length c ≡ source.nframes
      → target.bufp + n ≤ target.nframes
      → source.bufp + n ≤ source.nframes
      → IsValid target × IsValid source
      → BothSafe (copy_some n b c target source)
  copy_some-BothSafe n b c target source found bl cl h k valid = if_both BothSafe (n == 0) valid (
      subst (λ r. BothSafe (copied n target source r))
        (sym (copy_samples_lem n b c (omega arith) (omega arith)))
        (
          (
            let e : length (overwrite 0 (take n c) b) ≡ target.nframes =
                  omega (arith, length-overwrite 0 (take n c) b (omega (arith, length-take n c))) in
                e,
            h,
          ),
          subst (λ o. Fits o source.nframes (source.bufp + n)) (sym found) (cl, k),
        ))

  pub audio_copy-BothSafe :
      (count : IntArg) (target source : Pud (List S))
      → IsValid target
      → IsValid source
      → BothSafe (audio_copy count target source)
  unfolding audio_copy
  audio_copy-BothSafe count target source tv sv =
      let valid : IsValid target × IsValid source = (tv, sv) in
      let most = smaller (avail target) (avail source) in
      check-BothSafe (is_audio source.kind) invalid_source target source _ valid (
        check-BothSafe source.input source_not_input target source _ valid (
          check-BothSafe target.output target_not_output target source _ valid (
            buffer-BothSafe target.buf target.nframes target.bufp target source _ tv valid
              (λ b found bl ble.
                buffer-BothSafe source.buf source.nframes source.bufp target source _ sv valid
                  (λ c there cl cle. if_both (BothSafe {S = S} {A = ℕ}) (most == 0) valid (
                    raise-BothSafe (opt_u32 count most) bad_argument target source _ valid (λ n.
                      let (one, two) = smaller_le (avail target) (avail source) in
                      copy_some-BothSafe (smaller n most) b c target source there bl cl
                        (omega (arith, bufp-avail target ble, (smaller_le n most).1))
                        (omega (arith, bufp-avail source cle, (smaller_le n most).1)) valid)))))))
