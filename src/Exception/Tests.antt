-- ===== src/Exception/Tests.antt =====
-- A text that is thrown, and one that a handler adds.
use cppgenerics.Prelude.{◌≡◌, none, some, [], ◌∷◌, ◌++◌, arith}
use cppgenerics.Buffers.Descriptors.{c_str}
use cppgenerics.Exception.{Objects, put_all, what, throw_exception}
use cppgenerics.Exception.Thrown.{concat, what-throw_exception}

what-throw_exception_example :
    (t u v : Objects) × (throw_exception ((65 ∷ []) ∷ []) 1 2 (λ k. none) ≡ some t)
    × (t 1 ≡ none)
    × (put_all 2 ((66 ∷ []) ∷ []) t ≡ some u)
    × (what 2 u ≡ some (c_str (concat ((65 ∷ []) ∷ []) ++ concat ((66 ∷ []) ∷ [])), v))
what-throw_exception_example =
    what-throw_exception ((65 ∷ []) ∷ []) ((66 ∷ []) ∷ []) 1 2 (λ k. none) (omega arith)
