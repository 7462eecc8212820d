-- ===== src/Singleton/Tests.antt =====
-- Calls of getInstance of which the first fails to initialise.
use cppgenerics.Prelude.{ℕ, ◌≡◌, refl, true, false, Bool, none, some, [], ◌∷◌}
use cppgenerics.Singleton.{instances}

-- The key of the segment that the object has; 0 is none.
abbrev fails : ℕ → Bool × ℕ
fails key = (false, key)

abbrev succeeds : ℕ → Bool × ℕ
succeeds key = (true, 7)

-- The second call returns the object that is not initialised.
after_failure : instances 0 (fails ∷ succeeds ∷ []) none ≡ none ∷ some 0 ∷ []
unfolding instances
after_failure = refl
