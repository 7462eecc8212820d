-- ===== src/Container/Sized.antt =====
-- A container of a new buffer.
use cppgenerics.Prelude.{ℕ, ◌*◌, ◌/◌, ◌^◌, ◌<◌, ◌≡◌, ap, ◌∙◌, some, List, arith}
use cppgenerics.Buffers.Manager.{Os, Buffer, Manager, ok, size_t, storage, get_buffer}
use cppgenerics.Buffers.Manager.Get.{Created}
use cppgenerics.Buffers.Manager.Held.{hold-get_buffer}
use cppgenerics.Container.{new_container, visit, begin, end}
use cppgenerics.Container.Elements.{elements, visit-elements}

div_cancel : (n k : ℕ) → 0 < k → n * k / k ≡ n
div_cancel n k pos = grind arith

-- For a name that no buffer has, where getBuffer makes one and the size of the elements fits in a
-- size_t, the constructor of Container leaves what getBuffer leaves, with the one reference, and a
-- loop over the container visits just the number of elements that it was given.
pub visit-new_container :
    (capacity fuel visits size_of max_elems x ptr : ℕ) (os : Os) (name free full : List ℕ)
    (m m' : Manager) (b : Buffer)
    → 0 < size_of
    → max_elems * size_of < 2 ^ 64
    → max_elems < visits
    → get_buffer fuel os name (size_t (max_elems * size_of)) m ≡ ok b m'
    → Created capacity m x free full name (size_t (max_elems * size_of)) ptr b m'
    → (new_container fuel os size_of name max_elems m ≡ ok (some b) m')
      × (visit visits size_of (begin b) (end size_of b)
          ≡ some (elements size_of b.sptr 0 max_elems))
unfolding new_container
visit-new_container capacity fuel visits size_of max_elems x ptr os name free full m m' b pos fits
      enough got made =
    let refs : (storage m' b.descriptor).ref_count ≡ 1 =
      ap (λ i. (storage m' i).ref_count) made.of ∙ made.refs in
    let same_size : b.size ≡ max_elems * size_of = omega (arith, made.size) in
    let number : b.size / size_of ≡ max_elems =
      ap (λ n. n / size_of) same_size ∙ div_cancel max_elems size_of pos in
    (
      hold-get_buffer fuel os name (size_t (max_elems * size_of)) m m' b got (omega arith)
          (omega arith),
      (visit-elements visits size_of b pos (omega (arith, number, enough))).0
          ∙ ap (λ n. some (elements size_of b.sptr 0 n)) number,
    )
