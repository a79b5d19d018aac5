-- ===== src/Buffer/Custom.antt =====
-- src/buffer.c: custom ports, whose samples are byte strings of a fixed size; CustomClear and
-- CustomSeek are as for audio ports.
use luajack.Prelude.{ℕ, suc, Bool, Option, some, List, [], ◌∷◌, length, ltb, if◌then◌else◌}
use luajack.Buffer.{
  Pud, Outcome, returned, raised, overrun, IntArg, opt_u32, check, or_raise, avail, set, read_some,
  no_buffer, not_output, invalid_sample, bad_argument,
}

-- An argument of `write`: a string of `samplesize` bytes, of another size, or no string.
pub data CustomArg (S : Type 0) : Type 0 where
  sample : S → CustomArg S
  wrong_size : CustomArg S
  not_string : CustomArg S

module _ {S : Type 0} where
  -- There is no CheckIsInput in CustomRead.
  unfoldable pub custom_read :
      (ℕ → Bool) → IntArg → Pud (List S) → Outcome (Pud (List S)) (Option (List S))
  custom_read grows count pud =
      or_raise (opt_u32 count 1) bad_argument pud
        (λ n. or_raise pud.buf no_buffer pud (λ buf. read_some grows n buf pud))

  abbrev put_next :
      (List S → Pud (List S) → Outcome (Pud (List S)) ℕ)
      → CustomArg S
      → ℕ
      → ℕ
      → List S
      → Pud (List S)
      → Outcome (Pud (List S)) ℕ
  put_next rest not_string space n buf pud = returned n pud
  put_next rest wrong_size space n buf pud =
      if ltb n space then raised invalid_sample pud else returned n pud
  put_next rest (sample v) space n buf pud =
      if ltb n space
      then (if ltb pud.bufp (length buf)
          then rest (set buf pud.bufp v)
              (record pud { buf = some (set buf pud.bufp v); bufp = suc pud.bufp })
          else overrun)
      else returned n pud

  -- The loop of CustomWrite, which moves the position with each sample.
  unfoldable pub put_samples :
      List (CustomArg S) → ℕ → ℕ → List S → Pud (List S) → Outcome (Pud (List S)) ℕ
  put_samples [] space n buf pud = returned n pud
  put_samples (arg ∷ args) space n buf pud =
      put_next (put_samples args space (suc n)) arg space n buf pud

  unfoldable pub custom_write : List (CustomArg S) → Pud (List S) → Outcome (Pud (List S)) ℕ
  custom_write args pud =
      or_raise pud.buf no_buffer pud
        (λ buf. check pud.output not_output pud (put_samples args (avail pud) 0 buf pud))
