-- ===== src/Singleton/Once.antt =====
-- Successive calls of getInstance.
use cppgenerics.Prelude.{
  ◌≡◌, refl, ap, Bool, true, Option, none, some, List, [], ◌∷◌, if◌then◌else◌,
}
use cppgenerics.Singleton.{get_instance, logger_instance, instances}

-- The same element as often as a list is long.
abbrev pub for_each : {A B : Type 0} → A → List B → List A
for_each a [] = []
for_each a (b ∷ bs) = a ∷ for_each a bs

held :
    {A : Type 0} (fresh a : A) (inits : List (A → Bool × A))
    → instances fresh inits (some a) ≡ for_each (some a) inits
unfolding instances get_instance
held fresh a [] = refl
held fresh a (init ∷ inits) = ap (λ xs. some a ∷ xs) (held fresh a inits)

-- The first call of getInstance initialises the object, and throws where the initialisation does.
-- Every later call returns the object as this initialisation has left it, and initialises nothing,
-- also where it had thrown.
instances-once :
    {A : Type 0} (fresh : A) (init : A → Bool × A) (inits : List (A → Bool × A))
    → instances fresh (init ∷ inits) none
      ≡ (if (init fresh).0 then some (init fresh).1 else none)
        ∷ for_each (some (init fresh).1) inits
unfolding instances get_instance
instances-once fresh init inits =
    ap (λ xs. (if (init fresh).0 then some (init fresh).1 else none) ∷ xs)
      (held fresh (init fresh).1 inits)

-- logger_instance is get_instance without initialisation.
logger_instance-get_instance :
    {A : Type 0} (fresh : A) (holder : Option A)
    → logger_instance fresh holder ≡ get_instance fresh (λ l. (true, l)) holder
unfolding get_instance logger_instance
logger_instance-get_instance fresh none = refl
logger_instance-get_instance fresh (some l) = refl
