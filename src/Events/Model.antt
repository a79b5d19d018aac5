-- ===== src/Events/Model.antt =====
-- A queue of pointers as a list, and a pipe that holds three bytes, for tests.
use luajack.Prelude.{ℕ, suc, zero, ◌+◌, ◌<◌, ◌≡◌, refl, List, ◌∷◌, [], ◌++◌, arith}
use luajack.Events.{Evt}
use luajack.Events.Api.{Simpleq, IsFifo, Pipe, IsPipe, Io, count, again, head, tail}

abbrev pub list_queue : Simpleq Evt
list_queue = record {
  Q = List Evt;
  first = head;
  insert_tail = λ q e. q ++ (e ∷ []);
  remove_head = tail;
}

abbrev pub list_queue-IsFifo : IsFifo list_queue
list_queue-IsFifo = record {
  items = λ q. q;
  first_lem = λ q. refl;
  insert_lem = λ q e. refl;
  remove_lem = λ q. refl;
}

abbrev pub write_small : ℕ → Io × ℕ
write_small zero = (count 1, 1)
write_small (suc zero) = (count 1, 2)
write_small (suc (suc zero)) = (count 1, 3)
write_small (suc (suc (suc n))) = (again, suc (suc (suc n)))

abbrev pub read_small : ℕ → Io × ℕ
read_small zero = (again, zero)
read_small (suc n) = (count 1, n)

abbrev pub small_pipe : Pipe
small_pipe = record { P = ℕ; write = write_small; read = read_small }

pub write_small_one : (n : ℕ) → (write_small n).0 ≡ count 1 → (write_small n).1 ≡ n + 1
write_small_one zero h = refl
write_small_one (suc zero) h = refl
write_small_one (suc (suc zero)) h = refl
write_small_one (suc (suc (suc n))) h = cc

pub write_small_again : (n : ℕ) → (write_small n).0 ≡ again → (0 < n) × ((write_small n).1 ≡ n)
write_small_again zero h = cc
write_small_again (suc zero) h = cc
write_small_again (suc (suc zero)) h = cc
write_small_again (suc (suc (suc n))) h = (omega arith, refl)

pub read_small_one : (n : ℕ) → 0 < n → ((read_small n).0 ≡ count 1) × ((read_small n).1 + 1 ≡ n)
read_small_one zero h = absurd (omega arith)
read_small_one (suc n) h = (refl, omega arith)

pub read_small_again : (n : ℕ) → n ≡ 0 → ((read_small n).0 ≡ again) × ((read_small n).1 ≡ 0)
read_small_again zero h = (refl, refl)
read_small_again (suc n) h = absurd (omega arith)

abbrev pub small_pipe-IsPipe : IsPipe small_pipe
small_pipe-IsPipe = record {
  pending = λ n. n;
  write_one = write_small_one;
  write_again = write_small_again;
  read_one = read_small_one;
  read_again = read_small_again;
}
