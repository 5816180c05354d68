-- ===== src/Ir/Fact.antt =====
-- compiler/include/mlk/property/property_lattice.h and fact.h: what is known of a value. A double is
-- carried by its bits; no code here computes with it.
pub mod Laws
use mlk.Base.{
  ℕ, ◌-◌, ◌*◌, ◌^◌, Bool, true, false, Option, none, some, List, [], ◌∷◌, if◌then◌else◌, is_yes,
}

pub data TriState : Type 0 where
  unknown tri_false tri_true : TriState

unfoldable pub TriState-discrete : Discrete TriState
TriState-discrete = hlevel

-- `triStateMeet`
unfoldable pub tri_state_meet : TriState → TriState → TriState
tri_state_meet a b =
    if is_yes (TriState-discrete a unknown)
    then b
    else if is_yes (TriState-discrete b unknown)
    then a
    else if is_yes (TriState-discrete a b)
    then a
    else tri_false

pub data PropertyId : Type 0 where
  commutative associative distributive idempotent has_identity : PropertyId
  monotonic_increasing monotonic_decreasing periodic differentiable invertible : PropertyId
  positive non_negative bounded sparse symmetric contiguous pure integer_valued : PropertyId

unfoldable pub PropertyId-discrete : Discrete PropertyId
PropertyId-discrete = hlevel

abbrev pub same_property : PropertyId → PropertyId → Bool
same_property p q = is_yes (PropertyId-discrete p q)

pub record Interval : Type 0 where
  pub low : ℕ
  pub high : ℕ
  pub inclusive_low : Bool
  pub inclusive_high : Bool

-- The bits of the infinities.
abbrev pub infinity : ℕ
infinity = 2047 * 2 ^ 52

abbrev pub everything : Interval
everything = record {
  low = 4095 * 2 ^ 52;
  high = infinity;
  inclusive_low = false;
  inclusive_high = false;
}

pub record Fact : Type 0 where
  pub property : PropertyId
  pub value : TriState
  pub period : ℕ
  pub range : Interval

abbrev pub FactSet : Type 0
FactSet = List Fact

-- `FactSet::set`
unfoldable pub set_fact : Fact → FactSet → FactSet
set_fact f [] = f ∷ []
set_fact f (existing ∷ rest) =
    if same_property existing.property f.property then f ∷ rest else existing ∷ set_fact f rest

abbrev pub tri_state_fact : PropertyId → TriState → Fact
tri_state_fact p v = record { property = p; value = v; period = 0; range = everything }

-- `setTriState`, `setRange` and `setPeriod`
abbrev pub set_tri_state : PropertyId → TriState → FactSet → FactSet
set_tri_state p v facts = set_fact (tri_state_fact p v) facts

abbrev pub set_range : Interval → FactSet → FactSet
set_range r facts = set_fact (record (tri_state_fact bounded tri_true) { range = r }) facts

abbrev pub set_period : ℕ → FactSet → FactSet
set_period p facts = set_fact (record (tri_state_fact periodic tri_true) { period = p }) facts

-- `FactSet::get`; `none` is nullptr.
unfoldable pub get_fact : PropertyId → FactSet → Option Fact
get_fact p [] = none
get_fact p (f ∷ rest) = if same_property f.property p then some f else get_fact p rest

abbrev pub value_of : Option Fact → TriState
value_of none = unknown
value_of (some f) = f.value

-- `triState`, `isTrue` and `isFalse`
unfoldable pub tri_state : PropertyId → FactSet → TriState
unfolding get_fact
tri_state p facts = value_of (get_fact p facts)

abbrev pub is_true : PropertyId → FactSet → Bool
is_true p facts = is_yes (TriState-discrete (tri_state p facts) tri_true)

abbrev pub is_false : PropertyId → FactSet → Bool
is_false p facts = is_yes (TriState-discrete (tri_state p facts) tri_false)
