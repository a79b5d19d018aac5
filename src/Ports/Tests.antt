-- ===== src/Ports/Tests.antt =====
-- Tests of src/port.c over the ports of `Model`, and its theorems at concrete inputs.
use luajack.Prelude.{ℕ, ◌≡◌, refl, ◌⊎◌, true, false, none, some, List, [], ◌∷◌}
use luajack.Database.{found, xud_new}
use luajack.Ports.Register.{port_register}
use luajack.Database.Model.{key_list, key_list-IsTree}
use luajack.Ports.{
  disconnect, Error, raised, value, port_pushflags, input, midi, can_monitor, connect, connected,
  check_ports, both_input, get_ports,
}
use luajack.Ports.Api.{Name}
use luajack.Ports.Model.{port_list, port_list-IsDirected, port_list-IsServer}
use luajack.Ports.Sample.{midi_input, two_ports, two_ports-IsSound}
use luajack.Ports.Connect.{IsInput, IsOutput, connect_either_order, connect_directed}
use luajack.Ports.Register.Lifetime.{IsSound}
use luajack.Ports.Register.Session.{
  Op, AllFresh, register, unregister, connect_to, close_all, do_ops, do_ops-IsSound,
}

pushed : port_pushflags midi_input ≡ input ∷ midi ∷ can_monitor ∷ []
unfolding port_pushflags
pushed = refl

-- An empty direction is one that "input" begins with.
no_direction_is_input : get_ports port_list [] none none (some []) false false false ≡ value []
unfolding get_ports
no_direction_is_input = refl

-- The ports 2 and 4 are inputs, 3 is an output.
abbrev registered : List ℕ
registered = 2 ∷ 3 ∷ 4 ∷ []

two_inputs : connect port_list registered (2 ∷ []) (4 ∷ []) ≡ (raised both_input, registered)
unfolding connect check_ports
two_inputs = refl

connect_either_order_example :
    (connect port_list registered (2 ∷ []) (3 ∷ [])
      ≡ connect port_list registered (3 ∷ []) (2 ∷ []))
    × (disconnect port_list registered (2 ∷ []) (3 ∷ [])
        ≡ disconnect port_list registered (3 ∷ []) (2 ∷ []))
connect_either_order_example =
    connect_either_order port_list port_list-IsDirected registered (2 ∷ []) (3 ∷ []) 2 3 refl refl

connect_directed_example :
    ((err : Error) × (connect port_list registered (2 ∷ []) (3 ∷ []) ≡ (raised err, registered)))
    ⊎ ((src : Name) × (dst : Name) × IsOutput port_list port_list-IsDirected registered src
        × IsInput port_list port_list-IsDirected registered dst
        × (((src ≡ 2 ∷ []) × (dst ≡ 3 ∷ [])) ⊎ ((src ≡ 3 ∷ []) × (dst ≡ 2 ∷ [])))
        × (connect port_list registered (2 ∷ []) (3 ∷ [])
            ≡ connected port_list (port_list.connect registered src dst)))
connect_directed_example =
    connect_directed port_list port_list-IsDirected registered (2 ∷ []) (3 ∷ [])

-- Registrations at new addresses and without memory, uses of references good and bad, and closures.
abbrev ops : List Op
ops =
    register midi_input true (found 5) [] none (some 30)
    ∷ register midi_input true (found 5) [] none none
    ∷ register midi_input true (found 6) [] none (some 40)
    ∷ connect_to (3 ∷ []) (some 10)
    ∷ unregister (some 20)
    ∷ close_all 5 (10 ∷ 20 ∷ 30 ∷ 40 ∷ [])
    ∷ []

ops-AllFresh : AllFresh key_list key_list-IsTree port_list port_list-IsServer ops two_ports
unfolding port_register xud_new
ops-AllFresh = (refl, (tt, (refl, (tt, (tt, (tt, tt))))))

do_ops-IsSound_example :
    IsSound key_list key_list-IsTree port_list port_list-IsServer
      (do_ops key_list port_list ops two_ports)
do_ops-IsSound_example =
    do_ops-IsSound key_list key_list-IsTree port_list port_list-IsServer ops two_ports ops-AllFresh
      two_ports-IsSound
