-- ===== src/Ports/Model.antt =====
-- A JACK that is the list of the ports registered, for tests. The name of a port is its handle; the
-- even ones are inputs.
use luajack.Prelude.{
  arith, ℕ, ◌%◌, ◌≡◌, refl, sym, ap, ◌∙◌, inl, inr, true, false, not, Option, none, some, List, [],
  ◌∷◌, ◌==◌, length, if◌then◌else◌, if_both, Bool-cases, if_true, if_false, none-some, differ,
  some_inj,
}
use luajack.Database.Api.{member}
use luajack.Ports.Api.{Name, JackFlags, ok, Jack, IsDirected, IsServer}

abbrev pub without_port : ℕ → List ℕ → List ℕ
without_port p [] = []
without_port p (x ∷ xs) = let rest = without_port p xs in if x == p then rest else x ∷ rest

-- A handle is refused that is in use.
abbrev pub give : List ℕ → ℕ → Option ℕ × List ℕ
give j p = if member p j then (none, j) else (some p, p ∷ j)

abbrev pub by_name : List ℕ → Name → Option ℕ
by_name j [] = none
by_name j (p ∷ rest) = if member p j then some p else none

abbrev pub flags_of : ℕ → JackFlags
flags_of p = record {
  is_input = p % 2 == 0;
  is_output = not (p % 2 == 0);
  is_physical = false;
  can_monitor = false;
  is_terminal = false;
}

abbrev pub port_list : Jack
port_list = record {
  J = List ℕ;
  audio_type = 1 ∷ [];
  midi_type = 2 ∷ [];
  port_register = λ j name type flags size. give j (length j);
  port_unregister = λ j p. (true, without_port p j);
  port_by_name = by_name;
  port_name = λ j p. some (p ∷ []);
  port_flags = λ j p. flags_of p;
  port_type = λ j p. 1 ∷ [];
  connect = λ j src dst. (ok, j);
  disconnect = λ j src dst. (ok, j);
  port_disconnect = λ j p. (ok, j);
  get_ports = λ j name type flags. none;
}

abbrev pub port_list-IsDirected : IsDirected port_list
port_list-IsDirected = record { one_way = λ j p. refl }

pub member-without_port :
    (p q : ℕ) (j : List ℕ) → member q (without_port p j) ≡ (if q == p then false else member q j)
member-without_port p q [] = if_both (λ b. false ≡ b) (q == p) refl refl
member-without_port p q (x ∷ xs) = ground (arith, member-without_port p q xs)

pub given :
    (j : List ℕ) (n p : ℕ)
    → (give j n).0 ≡ some p
    → (member p j ≡ false)
      × ((q : ℕ) → member q (give j n).1 ≡ (if q == p then true else member q j))
given j n p h = elim (Bool-cases (member n j)) [
  | inl used ↦ absurd (
      none-some p (
        sym (
          ap (λ (z : Option ℕ × List ℕ). z.0) (if_true (member n j) (none, j) (some n, n ∷ j) used))
        ∙ h))
  | inr free ↦
      let e = if_false (member n j) (none, j) (some n, n ∷ j) free in
      let same : n ≡ p = some_inj n p (sym (ap (λ (z : Option ℕ × List ℕ). z.0) e) ∙ h) in
      (
        sym (ap (λ x. member x j) same) ∙ free,
        λ q.
            ap (λ (z : Option ℕ × List ℕ). member q z.1) e
            ∙ ap (λ x. if q == x then true else member q j) same,
      )
]

pub not_given : (j : List ℕ) (n q : ℕ) → (give j n).0 ≡ none → member q (give j n).1 ≡ member q j
not_given j n q h = elim (Bool-cases (member n j)) [
  | inl used ↦
      ap (λ (z : Option ℕ × List ℕ). member q z.1)
        (if_true (member n j) (none, j) (some n, n ∷ j) used)
  | inr free ↦ absurd (
      none-some n (
        sym h
        ∙ ap (λ (z : Option ℕ × List ℕ). z.0)
            (if_false (member n j) (none, j) (some n, n ∷ j) free)))
]

abbrev pub port_list-IsServer : IsServer port_list
port_list-IsServer = record {
  owned = λ j q. member q j;
  refused = λ j q. false;
  register_some = λ j name type flags size p h.
      let (new, all) = given j (length j) p h in
      (new, λ q. (all q, if_both (λ b. false ≡ b) (q == p) refl refl));
  register_none = λ j name type flags size h q. (not_given j (length j) q h, refl);
  unregister_done = λ j p q h. (member-without_port p q j, refl);
  unregister_refused = λ j p q h. absurd (differ h);
  connect_lem = λ j src dst q. (refl, refl);
  disconnect_lem = λ j src dst q. (refl, refl);
  port_disconnect_lem = λ j p q. (refl, refl);
}
