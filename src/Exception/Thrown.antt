-- ===== src/Exception/Thrown.antt =====
-- What a handler finds in an exception that was thrown.
use cppgenerics.Prelude.{
  ℕ, ◌≡◌, ◌≢◌, refl, ◌∙◌, ap, none, some, List, [], ◌∷◌, ◌++◌, write, arith, eq_self,
}
use mathlib.Core.List.{append-nil, append_assoc}
use cppgenerics.Buffers.Descriptors.{c_str}
use cppgenerics.Exception.{
  Exception, Objects, new_exception, append, put, put_all, copy_exception, destroy, what,
  throw_exception,
}

abbrev pub concat : List (List ℕ) → List ℕ
concat [] = []
concat (text ∷ texts) = text ++ concat texts

-- An object that writes to its own buffer.
abbrev pub own : ℕ → List ℕ → Exception
own e text = record { buf = text; stream = e; out_str = [] }

-- In t the object at e has the text, and the others are those of s.
abbrev pub Holds : ℕ → List ℕ → Objects → Objects → Type 0
Holds e text s t = (t e ≡ some (own e text)) × ((k : ℕ) → e ≢ k → t k ≡ s k)

module _ (e : ℕ) (s : Objects) where
  append-here :
      (text : List ℕ) (x : Exception)
      → s e ≡ some x
      → append e text s ≡ some (write s e (some (record x { buf = x.buf ++ text })))
  unfolding append
  append-here text x here = rw (here, append)

  put-here : (text : List ℕ) (x : Exception) → s e ≡ some x → put e text s ≡ append x.stream text s
  unfolding put
  put-here text x here = rw (here, put)

  put_all-next :
      (text : List ℕ) (texts : List (List ℕ)) (u : Objects)
      → put e text s ≡ some u
      → put_all e (text ∷ texts) s ≡ put_all e texts u
  unfolding put_all
  put_all-next text texts u done = rw (done, put_all)

  copy_exception-here :
      (to : ℕ) (x : Exception)
      → s e ≡ some x
      → copy_exception e to s ≡ put to x.buf (new_exception to s)
  unfolding copy_exception
  copy_exception-here to x here = rw (here, copy_exception)

  what-here :
      (x : Exception)
      → s e ≡ some x
      → what e s ≡ some (c_str x.buf, write s e (some (record x { out_str = x.buf })))
  unfolding what
  what-here x here = rw (here, what)

throw_exception-ok :
    (texts : List (List ℕ)) (local thrown : ℕ) (s a b : Objects)
    → put_all local texts (new_exception local s) ≡ some a
    → copy_exception local thrown a ≡ some b
    → throw_exception texts local thrown s ≡ some (destroy local b)
unfolding throw_exception
throw_exception-ok texts local thrown s a b wrote copied =
    rw (wrote, throw_exception) (rw (copied, throw_exception))

put-Holds :
    (e : ℕ) (old text : List ℕ) (s : Objects)
    → s e ≡ some (own e old)
    → (t : Objects) × (put e text s ≡ some t) × Holds e (old ++ text) s t
put-Holds e old text s here = (
  write s e (some (own e (old ++ text))),
  put-here e s text (own e old) here ∙ append-here e s text (own e old) here,
  (rw (eq_self e) refl, λ k other. ground arith),
)

put_all-Holds :
    (e : ℕ) (texts : List (List ℕ)) (old : List ℕ) (s : Objects)
    → s e ≡ some (own e old)
    → (t : Objects) × (put_all e texts s ≡ some t) × Holds e (old ++ concat texts) s t
unfolding put_all
put_all-Holds e [] old s here = (s, refl, (rw (append-nil old) here, λ k other. refl))
put_all-Holds e (text ∷ texts) old s here =
    let (u, done, (mine, others)) = put-Holds e old text s here in
    let (t, rest, (all, kept)) = put_all-Holds e texts (old ++ text) u mine in
    (
      t,
      put_all-next e s text texts u done ∙ rest,
      (
        all ∙ ap (λ x. some (own e x)) (append_assoc old text (concat texts)),
        λ k other. kept k other ∙ others k other,
      ),
    )

new-Holds : (e : ℕ) (s : Objects) → Holds e [] s (new_exception e s)
unfolding new_exception
new-Holds e s = (rw (eq_self e) refl, λ k other. ground arith)

copy_exception-Holds :
    (o e : ℕ) (text : List ℕ) (s : Objects)
    → s o ≡ some (own o text)
    → (t : Objects) × (copy_exception o e s ≡ some t) × Holds e text s t
copy_exception-Holds o e text s here =
    let (fresh, same) = new-Holds e s in
    let (t, done, (mine, others)) = put-Holds e [] text (new_exception e s) fresh in
    (
      t,
      copy_exception-here o s e (own o text) here ∙ done,
      (mine, λ k other. others k other ∙ same k other),
    )

-- The local exception of the macros and the thrown one stand at two addresses. Whatever is written,
-- the throw succeeds and destroys the local exception; what more a handler writes to the caught one
-- succeeds, and what() then gives the texts of the macro and these, one behind the other, up to the
-- first zero byte.
pub what-throw_exception :
    (texts more : List (List ℕ)) (local thrown : ℕ) (s : Objects)
    → local ≢ thrown
    → (t u v : Objects) × (throw_exception texts local thrown s ≡ some t)
      × (t local ≡ none)
      × (put_all thrown more t ≡ some u)
      × (what thrown u ≡ some (c_str (concat texts ++ concat more), v))
unfolding destroy
what-throw_exception texts more local thrown s differ =
    let (a, wrote, (first, o1)) =
      put_all-Holds local texts [] (new_exception local s) (new-Holds local s).0 in
    let (b, copied, (second, o2)) = copy_exception-Holds local thrown (concat texts) a first in
    let (u, wrote_more, (third, o3)) =
      put_all-Holds thrown more (concat texts) (destroy local b) (ground arith) in
    let all = concat texts ++ concat more in
    (
      destroy local b,
      u,
      write u thrown (some (record (own thrown all) { out_str = all })),
      throw_exception-ok texts local thrown s a b wrote copied,
      ground (arith, eq_self local),
      wrote_more,
      what-here thrown u (own thrown all) third,
    )
