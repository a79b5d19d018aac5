-- ===== src/Events/Pipes.antt =====
-- What syncpipe_write and syncpipe_read of src/syncpipe.c do to a pipe.
use luajack.Prelude.{◌+◌, ◌-◌, ◌≡◌, refl, inl, inr, ℕ-cases, pos, arith}
use luajack.Events.{syncpipe_write, syncpipe_read}
use luajack.Events.Api.{Pipe, IsPipe, count}

module _ (pipe : Pipe) (is_pipe : IsPipe pipe) where
  open is_pipe use {pending}

  -- A byte that is written waits.
  pub syncpipe_write_lem :
      (p : pipe.P)
      → (pipe.write p).0 ≡ count 1
      → let w = syncpipe_write pipe p in (w.0 ≡ pos 1) × (pending w.1 ≡ pending p + 1)
  unfolding syncpipe_write
  syncpipe_write_lem p e = (rw e refl, is_pipe.write_one p e)

  -- A byte is taken if one waits, and it is no error if none does.
  pub syncpipe_read_lem :
      (p : pipe.P) → let r = syncpipe_read pipe p in (r.0 ≡ pos 0) × (pending r.1 ≡ pending p - 1)
  unfolding syncpipe_read
  syncpipe_read_lem p = elim (ℕ-cases (pending p) 0) [
    | inl none ↦ let r = is_pipe.read_again p (omega arith) in (rw r.0 refl, omega (arith, r.1))
    | inr some ↦ let r = is_pipe.read_one p some in (rw r.0 refl, omega (arith, r.1))
  ]
