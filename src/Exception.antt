-- ===== src/Exception.antt =====
-- Exception of include/cppgenerics/Exception.h, with the macros that throw it. An object's stream
-- writes to the buffer of the object whose address it has; objects are found by address, and an
-- access to a destroyed one is `none`. A text is its bytes.
mod Tests
pub mod Thrown
use cppgenerics.Prelude.{ℕ, Option, none, some, List, [], ◌∷◌, ◌++◌, if◌then◌else◌, ◌==◌, write}
use cppgenerics.Buffers.Descriptors.{c_str}

-- m_buf, the buffer that m_stream writes to, and outStr.
pub record Exception : Type 0 where
  pub buf : List ℕ
  pub stream : ℕ
  pub out_str : List ℕ

abbrev pub Objects : Type 0
Objects = ℕ → Option Exception

-- Exception::Exception().
unfoldable pub new_exception : ℕ → Objects → Objects
new_exception e s = write s e (some (record { buf = []; stream = e; out_str = [] }))

-- A write to the buffer of the object at an address.
unfoldable pub append : ℕ → List ℕ → Objects → Option Objects
append e text s = elim (s e) [
  | none ↦ none
  | some x ↦ some (write s e (some (record x { buf = x.buf ++ text })))
]

-- `e() << text`.
unfoldable pub put : ℕ → List ℕ → Objects → Option Objects
unfolding append
put e text s = elim (s e) [ none ↦ none | some x ↦ append x.stream text s ]

-- `e() << text << ...`.
unfoldable pub put_all : ℕ → List (List ℕ) → Objects → Option Objects
unfolding put
put_all e [] s = some s
put_all e (text ∷ texts) s = elim (put e text s) [ none ↦ none | some s' ↦ put_all e texts s' ]

-- Exception::Exception(const Exception&), from `o` to `e`.
unfoldable pub copy_exception : ℕ → ℕ → Objects → Option Objects
unfolding new_exception put
copy_exception o e s = elim (s o) [ none ↦ none | some x ↦ put e x.buf (new_exception e s) ]

unfoldable pub destroy : ℕ → Objects → Objects
destroy e s = write s e none

-- Exception::what: the text up to the first zero byte.
unfoldable pub what : ℕ → Objects → Option (List ℕ × Objects)
what e s = elim (s e) [
  | none ↦ none
  | some x ↦ some (c_str x.buf, write s e (some (record x { out_str = x.buf })))
]

-- The macros: a local exception is written to, the exception object copies it, and the local one is
-- destroyed.
unfoldable pub throw_exception : List (List ℕ) → ℕ → ℕ → Objects → Option Objects
unfolding new_exception put_all copy_exception destroy
throw_exception texts local thrown s = elim (put_all local texts (new_exception local s)) [
  | none ↦ none
  | some s' ↦ elim (copy_exception local thrown s') [
    | none ↦ none
    | some s'' ↦ some (destroy local s'')
  ]
]
