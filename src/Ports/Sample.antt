-- ===== src/Ports/Sample.antt =====
-- Two registered ports of two clients, for tests.
use luajack.Prelude.{
  ◌∙◌, ◌&&◌, Bool, subst, ℕ, ◌≡◌, refl, ◌⊎◌, inl, inr, true, false, [], ◌∷◌, ◌==◌, if◌then◌else◌,
  Bool-cases, sym, ==_iff, arith,
}
use luajack.Database.Api.{member}
use luajack.Database.Model.{key_list, key_list-IsTree}
use luajack.Ports.{PortFlags}
use luajack.Ports.Model.{port_list, port_list-IsServer}
use luajack.Ports.Register.{Entry, Ports}
use luajack.Ports.Register.Lifetime.{IsSound}

abbrev pub midi_input : PortFlags
midi_input = record {
  jack = record {
    is_input = true;
    is_output = false;
    is_physical = false;
    can_monitor = true;
    is_terminal = false;
  };
  is_audio = false;
  is_midi = true;
  is_custom = false;
}

and_true : (b : Bool) → (b && true) ≡ b
and_true true = refl
and_true false = refl

abbrev pub entry_of : ℕ → ℕ → Entry
entry_of p client = record { port = p; cud = client; flags = midi_input; samplesize = 0 }

-- The entries at 10 and 20 are those of the ports 1 and 2, of the clients 5 and 6.
abbrev pub two_ports : Ports key_list port_list
two_ports = record {
  db = record { tree = 10 ∷ 20 ∷ []; valid = λ a. if a == 10 then true else a == 20; freed = [] };
  entry = λ a. if a == 10 then entry_of 1 5 else entry_of 2 6;
  jack = 1 ∷ 2 ∷ [];
}

pub two_entries : (a : ℕ) → two_ports.db.valid a ≡ true → (a ≡ 10) ⊎ (a ≡ 20)
two_entries a v = ground arith

pub two_ports-live :
    (a : ℕ) → two_ports.db.valid a ≡ true → member (two_ports.entry a).port (1 ∷ 2 ∷ []) ≡ true
two_ports-live a v = elim (two_entries a v) [
  | inl e ↦ subst (λ x. member (two_ports.entry x).port (1 ∷ 2 ∷ []) ≡ true) (sym e) refl
  | inr e ↦ subst (λ x. member (two_ports.entry x).port (1 ∷ 2 ∷ []) ≡ true) (sym e) refl
]

pub two_ports_single :
    (a b : ℕ)
    → two_ports.db.valid a ≡ true
    → two_ports.db.valid b ≡ true
    → (two_ports.entry a).port ≡ (two_ports.entry b).port
    → a ≡ b
two_ports_single a b v w e = ground arith

pub two_ports_known :
    (p : ℕ)
    → member p (1 ∷ 2 ∷ []) ≡ true
    → (a : ℕ) × (two_ports.db.valid a ≡ true) × ((two_ports.entry a).port ≡ p)
two_ports_known p h = elim (Bool-cases (p == 1)) [
  | inl one ↦ (10, refl, sym ((==_iff p 1).0 one))
  | inr other ↦ (20, refl, ground arith)
]

pub two_ports_kept : (a : ℕ) → two_ports.db.valid a ≡ true → member a (10 ∷ 20 ∷ []) ≡ true
two_ports_kept a v = ground arith

pub two_ports-IsSound : IsSound key_list key_list-IsTree port_list port_list-IsServer two_ports
two_ports-IsSound = record {
  paired = record {
    live = λ a v. and_true (member (two_ports.entry a).port (1 ∷ 2 ∷ [])) ∙ two_ports-live a v;
    single = two_ports_single;
    known = λ p h. two_ports_known p (sym (and_true (member p (1 ∷ 2 ∷ []))) ∙ h);
  };
  kept = two_ports_kept;
}
