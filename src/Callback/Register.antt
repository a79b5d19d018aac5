-- ===== src/Callback/Register.antt =====
-- The registration of the non real-time callbacks (src/callback.c): the fields of the client's record
-- as slots of the registry.
use luajack.Prelude.{
  ℕ, ◌≡◌, refl, ap, ◌∙◌, Bool, true, false, Option, none, List, [], ◌∷◌, ◌==◌, if◌then◌else◌, eq→==,
  arith,
}
use luajack.Objects.{Callbacks}
use luajack.Registry.{Registered, unregister_all, listed}
use luajack.Registry.Api.{LuaRegistry, IsRegistry, Slots}
use luajack.Registry.Table.{IsLinked, function_of}
use luajack.Registry.Session.{unregister_all-function_of}

-- The callbacks of REGISTRATION_FUNCTION.
pub data Kind : Type 0 where
  shutdown freewheel sample_rate client_registration port_registration port_rename : Kind
  port_connect graph_order xrun latency session : Kind

abbrev pub field : Kind → Callbacks → Option ℕ
field shutdown c = c.shutdown
field freewheel c = c.freewheel
field sample_rate c = c.sample_rate
field client_registration c = c.client_registration
field port_registration c = c.port_registration
field port_rename c = c.port_rename
field port_connect c = c.port_connect
field graph_order c = c.graph_order
field xrun c = c.xrun
field latency c = c.latency
field session c = c.session

abbrev pub set_field : Kind → Option ℕ → Callbacks → Callbacks
set_field shutdown v c = record c { shutdown = v }
set_field freewheel v c = record c { freewheel = v }
set_field sample_rate v c = record c { sample_rate = v }
set_field client_registration v c = record c { client_registration = v }
set_field port_registration v c = record c { port_registration = v }
set_field port_rename v c = record c { port_rename = v }
set_field port_connect v c = record c { port_connect = v }
set_field graph_order v c = record c { graph_order = v }
set_field xrun v c = record c { xrun = v }
set_field latency v c = record c { latency = v }
set_field session v c = record c { session = v }

abbrev pub number : Kind → ℕ
number shutdown = 0
number freewheel = 1
number sample_rate = 2
number client_registration = 3
number port_registration = 4
number port_rename = 5
number port_connect = 6
number graph_order = 7
number xrun = 8
number latency = 9
number session = 10

abbrev pub same_kind : Kind → Kind → Bool
same_kind j k = number j == number k

pub same_kind_refl : (k : Kind) → same_kind k k ≡ true
same_kind_refl k = eq→== (number k) (number k) refl

pub same_kind-eq : (j k : Kind) → same_kind j k ≡ true → j ≡ k
same_kind-eq j k h = grind arith

pub field-set_field :
    (j k : Kind) (v : Option ℕ) (c : Callbacks)
    → field j (set_field k v c) ≡ (if same_kind j k then v else field j c)
field-set_field shutdown shutdown v c = refl
field-set_field shutdown _ v c = refl
field-set_field freewheel freewheel v c = refl
field-set_field freewheel _ v c = refl
field-set_field sample_rate sample_rate v c = refl
field-set_field sample_rate _ v c = refl
field-set_field client_registration client_registration v c = refl
field-set_field client_registration _ v c = refl
field-set_field port_registration port_registration v c = refl
field-set_field port_registration _ v c = refl
field-set_field port_rename port_rename v c = refl
field-set_field port_rename _ v c = refl
field-set_field port_connect port_connect v c = refl
field-set_field port_connect _ v c = refl
field-set_field graph_order graph_order v c = refl
field-set_field graph_order _ v c = refl
field-set_field xrun xrun v c = refl
field-set_field xrun _ v c = refl
field-set_field latency latency v c = refl
field-set_field latency _ v c = refl
field-set_field session session v c = refl
field-set_field session _ v c = refl

abbrev pub client_slots : Slots
client_slots = record {
  K = Kind;
  C = Callbacks;
  same = same_kind;
  look = field;
  put = set_field;
  same_refl = same_kind_refl;
  same_eq = same_kind-eq;
  look-put = field-set_field;
}

-- What callback_unregister releases, in its order.
abbrev pub unregistered : List Kind
unregistered =
    shutdown ∷ freewheel ∷ sample_rate ∷ client_registration ∷ port_registration ∷ port_rename
    ∷ port_connect ∷ graph_order ∷ xrun ∷ latency ∷ []

pub callback_unregister : (r : LuaRegistry) → Registered r client_slots → Registered r client_slots
callback_unregister r st = unregister_all r client_slots unregistered st

turned :
    {A : Type 0} (b : Bool) (x y : A)
    → (if (if b then false else true) then x else y) ≡ (if b then y else x)
turned true x y = refl
turned false x y = refl

module _ (r : LuaRegistry) (doc : IsRegistry r) where
  -- Every callback but that of a session is in the list.
  listed_but_session :
      (k : Kind)
      → listed r client_slots k unregistered ≡ (if same_kind k session then false else true)
  listed_but_session shutdown = refl
  listed_but_session freewheel = refl
  listed_but_session sample_rate = refl
  listed_but_session client_registration = refl
  listed_but_session port_registration = refl
  listed_but_session port_rename = refl
  listed_but_session port_connect = refl
  listed_but_session graph_order = refl
  listed_but_session xrun = refl
  listed_but_session latency = refl
  listed_but_session session = refl

  -- When a client is closed its callbacks are released, but not that of a session: its function stays
  -- in the registry.
  pub close_keeps_session :
      (st : Registered r client_slots) (k : Kind)
      → IsLinked r client_slots st
      → function_of r client_slots k (callback_unregister r st)
        ≡ (if same_kind k session then function_of r client_slots k st else none)
  unfolding callback_unregister
  close_keeps_session st k linked =
      unregister_all-function_of r doc client_slots unregistered k st linked
      ∙ (ap (λ b. if b then none else function_of r client_slots k st) (listed_but_session k)
          ∙ turned (same_kind k session) none (function_of r client_slots k st))
