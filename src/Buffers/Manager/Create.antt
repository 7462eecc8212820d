-- ===== src/Buffers/Manager/Create.antt =====
-- getBuffer on a new id.
use cppgenerics.Prelude.{ℕ, ◌+◌, ◌-◌, ◌^◌, ◌≡◌, Bool, true, none, some, List, ◌∷◌, write, arith}
use cppgenerics.Buffers.Manager.{
  Os, Manager, Buffer, ok, throw, storage, with_storage, size_t, futex_bytes, erase_atch,
  attach_descriptor, filled, fill_buffer, >>=-ok, >>=-throw, sys_error,
}

attach_descriptor-throw :
    (os : Os) (i : ℕ) (is_new : Bool) (m : Manager)
    → os.shmget (storage m i).shm_key (storage m i).bytes is_new ≡ none
    → attach_descriptor os i is_new m ≡ throw sys_error m
unfolding attach_descriptor
attach_descriptor-throw os i is_new m e = ground arith

pub attach_descriptor-ok :
    (os : Os) (i : ℕ) (is_new : Bool) (m : Manager) (shm addr : ℕ)
    → os.shmget (storage m i).shm_key (storage m i).bytes is_new ≡ some shm
    → os.shmat shm ≡ some addr
    → attach_descriptor os i is_new m
      ≡ ok addr (record m { local_atchs = (i, addr) ∷ erase_atch i m.local_atchs })
unfolding attach_descriptor
attach_descriptor-ok os i is_new m shm addr e f = ground arith

module _ (os : Os) (id : List ℕ) (bytes key x : ℕ) (m : Manager) where
  -- The state between the fill and the attachment.
  abbrev pub prepared : Manager
  prepared =
      let m2 : Manager = with_storage m (write (storage m) x (filled id bytes (storage m x))) in
      with_storage m2 (write (storage m2) x (record (storage m2 x) { shm_key = key }))

  prepared-key : (storage prepared x).shm_key ≡ key
  prepared-key = ground arith

  prepared-bytes : (storage prepared x).bytes ≡ size_t (bytes + futex_bytes)
  prepared-bytes = ground arith

  pub fill_buffer-throw :
      os.shmget key (size_t (bytes + futex_bytes)) true ≡ none
      → fill_buffer os id bytes (some key) x m ≡ throw sys_error prepared
  unfolding fill_buffer
  fill_buffer-throw refused =
      >>=-throw (attach_descriptor os x true) _ prepared prepared sys_error
        (attach_descriptor-throw os x true prepared (rw (prepared-key, prepared-bytes) refused))

  -- The final state.
  abbrev pub attached : ℕ → Manager
  attached ptr = record prepared { local_atchs = (x, ptr) ∷ erase_atch x m.local_atchs }

  abbrev pub created : ℕ → Manager
  created ptr =
      let a : Manager = attached ptr in
      let n : ℕ = size_t ((storage a x).ref_count + 1) in
      let b : Manager =
        with_storage a (write (storage a) x (record (storage a x) { ref_count = n })) in
      record b { words = write m.words ptr 1 }

  abbrev pub buffer : ℕ → Buffer
  buffer ptr = record {
    size = size_t ((storage (created ptr) x).bytes + 2 ^ 64 - futex_bytes);
    ptr = ptr;
    sptr = ptr + futex_bytes;
    descriptor = x;
    is_creator = true;
  }

  pub fill_buffer-ok :
      (shm ptr : ℕ)
      → os.shmget key (size_t (bytes + futex_bytes)) true ≡ some shm
      → os.shmat shm ≡ some ptr
      → fill_buffer os id bytes (some key) x m ≡ ok (buffer ptr) (created ptr)
  unfolding fill_buffer
  fill_buffer-ok shm ptr given mapped =
      >>=-ok (attach_descriptor os x true) _ prepared (attached ptr) ptr (
        attach_descriptor-ok os x true prepared shm ptr (rw (prepared-key, prepared-bytes) given)
          mapped)
