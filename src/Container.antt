-- ===== src/Container.antt =====
-- IPC::Container of include/cppgenerics/IPC_Container.h over a Buffer: a reference to an element is its
-- address, and `size_of` is sizeof(T). The lock that operator* takes has no part in it.
pub mod Elements
pub mod Sized
mod Tests
use cppgenerics.Prelude.{
  ℕ, zero, suc, ◌+◌, ◌*◌, ◌/◌, Bool, ◌&&◌, not, Option, none, some, List, [], ◌∷◌, if◌then◌else◌,
  ◌==◌,
}
use cppgenerics.Buffers.Manager.Held.{hold}
use cppgenerics.Buffers.Manager.{
  Os, Buffer, M, ◌>>=◌, ◌>>◌, pure, size_t, get_buffer, Slot, assign_buffer, destroy_buffer,
}

-- `buf` is m_buf, and `storage_size` the size of the buffer behind m_storage.
pub record Iterator : Type 0 where
  pub pos : ℕ
  pub buf : ℕ
  pub storage_size : ℕ

-- Iterator::Iterator(Buffer*, difference_type).
unfoldable pub new_iterator : Buffer → ℕ → Iterator
new_iterator b pos = record { pos = pos; buf = b.sptr; storage_size = b.size }

unfoldable pub begin : Buffer → Iterator
unfolding new_iterator
begin b = new_iterator b 0

unfoldable pub end : ℕ → Buffer → Iterator
unfolding new_iterator
end size_of b = new_iterator b (b.size / size_of)

-- operator++.
unfoldable pub next : Iterator → Iterator
next it = record it { pos = it.pos + 1 }

-- operator++(int): the value it returns, and the iterator behind it.
unfoldable pub post_next : Iterator → Iterator × Iterator
unfolding next
post_next it = (it, next it)

-- operator== and operator!=.
unfoldable pub equal : Iterator → Iterator → Bool
equal it other = (it.buf == other.buf) && (it.pos == other.pos)

unfoldable pub differ : Iterator → Iterator → Bool
unfolding equal
differ it other = not (equal it other)

-- operator*.
unfoldable pub deref : ℕ → Iterator → ℕ
deref size_of it = it.buf + it.pos * size_of

-- Container::operator[].
unfoldable pub index : ℕ → Buffer → ℕ → ℕ
index size_of b idx = b.sptr + idx * size_of * size_of

-- `for (auto& x : container)`: the references that it visits, unless the fuel ends.
unfoldable pub visit : ℕ → ℕ → Iterator → Iterator → Option (List ℕ)
unfolding differ next deref
visit zero size_of it last = none
visit (suc fuel) size_of it last =
    let rest = visit fuel size_of (next it) last in
    if differ it last
    then (elim rest [ none ↦ none | some xs ↦ some (deref size_of it ∷ xs) ])
    else some []

-- Container::Container(const std::string&, difference_type).
unfoldable pub new_container : ℕ → Os → ℕ → List ℕ → ℕ → M Slot
unfolding hold
new_container fuel os size_of buf_name max_elems =
    hold fuel os buf_name (size_t (max_elems * size_of))
