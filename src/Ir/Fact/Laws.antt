-- ===== src/Ir/Fact/Laws.antt =====
-- A set of facts is a map from properties to facts.
use mlk.Base.{◌≡◌, refl, ◌∙◌, none, some, [], ◌∷◌, if◌then◌else◌, is_yes_iff, arith, if_ind}
use mlk.Ir.Fact.{PropertyId, PropertyId-discrete, same_property, Fact, FactSet, set_fact, get_fact}

-- Facts of different properties, each of which says what its property is.
abbrev pub IsMap : FactSet → Type 0
IsMap [] = Unit
IsMap (f ∷ rest) = (get_fact f.property rest ≡ none) × IsMap rest

get_fact-set_fact :
    (p : PropertyId) (f : Fact) (facts : FactSet)
    → get_fact p (set_fact f facts)
      ≡ (if same_property f.property p then some f else get_fact p facts)
unfolding get_fact set_fact
get_fact-set_fact p f [] = refl
get_fact-set_fact p f (g ∷ rest) = ground (
  arith,
  get_fact-set_fact p f rest,
  is_yes_iff (PropertyId-discrete g.property f.property),
  is_yes_iff (PropertyId-discrete f.property p),
  is_yes_iff (PropertyId-discrete g.property p),
)

set_fact-IsMap : (f : Fact) (facts : FactSet) → IsMap facts → IsMap (set_fact f facts)
unfolding set_fact get_fact
set_fact-IsMap f [] h = (refl, tt)
set_fact-IsMap f (g ∷ rest) h =
    if_ind IsMap (same_property g.property f.property)
      (λ e. ground (arith, h, is_yes_iff (PropertyId-discrete g.property f.property)))
      (λ e. (
        get_fact-set_fact g.property f rest
            ∙ ground (
              arith,
              h,
              is_yes_iff (PropertyId-discrete g.property f.property),
              is_yes_iff (PropertyId-discrete f.property g.property),
            ),
        set_fact-IsMap f rest h.1,
      ))

-- A set of facts is a map: `set` keeps at most one fact for each property, and afterwards `get` returns
-- the new fact for its property and what it returned before for every other one.
pub set_fact_correct :
    (f : Fact) (facts : FactSet)
    → IsMap facts
    → IsMap (set_fact f facts)
      × ((p : PropertyId)
          → get_fact p (set_fact f facts)
            ≡ (if same_property f.property p then some f else get_fact p facts))
set_fact_correct f facts h = (set_fact-IsMap f facts h, λ p. get_fact-set_fact p f facts)
