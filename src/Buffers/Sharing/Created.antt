-- ===== src/Buffers/Sharing/Created.antt =====
-- getBuffer with a new id: the table and the numbers of objects.
use cppgenerics.Prelude.{
  subst, ℕ, ◌<◌, ◌≡◌, ap, ◌∙◌, false, List, [], ◌∷◌, ◌==◌, write, arith, Bool-cases, inl, inr,
}
use cppgenerics.Buffers.Descriptors.{matches, missing, Shared}
use cppgenerics.Buffers.Manager.{Os, Manager, >>=-ok, pure, storage, erase_atch, get_buffer}
use cppgenerics.Buffers.Manager.Get.{Unknown, get_buffer-Created}
use cppgenerics.Buffers.Registry.{Entry, reserve_spec, keys, lookup}
use cppgenerics.Buffers.Registry.Refine.{Stored, Stored-frame}
use cppgenerics.Buffers.Sharing.{created, with_new, IsNew, step}
use cppgenerics.Buffers.Sharing.Agreement.{Agrees, Keeps}

lookup-Unknown :
    (id : List ℕ) (s : Shared) (full : List Entry)
    → Stored s.main_storage full
    → lookup id full ≡ missing
    → Unknown id s (keys full)
lookup-Unknown id s [] stored new a k = cc
lookup-Unknown id s ((i, name) ∷ es) stored new a k = elim (Bool-cases (i == a)) [
  | inl same ↦
      (let e : i ≡ a = ground arith in
        subst (λ j. matches id (s.main_storage j).id ≡ false) e (rw stored.0 (ground arith)))
  | inr other ↦ lookup-Unknown id s es stored.1 (ground arith) a (ground arith)
]

module _ (capacity fuel : ℕ) (enough : capacity < fuel) where
  made-Keeps :
      (os : Os) (id : List ℕ) (bytes ptr : ℕ) (m : Manager) (x : ℕ) (free : List ℕ)
      (full : List Entry) (users : ℕ → ℕ) (atchs : List (ℕ × ℕ))
      → Agrees capacity m (record {
        registry = record { free = x ∷ free; full = full };
        users = users;
        attached = atchs;
      })
      → IsNew fuel os id bytes ptr (record {
        registry = record { free = x ∷ free; full = full };
        users = users;
        attached = atchs;
      })
      → Keeps capacity (step fuel (created os id bytes ptr)) m (record {
        registry = (reserve_spec id (x ∷ free) full).1;
        users = write users x 1;
        attached = (x, ptr) ∷ erase_atch x atchs;
      })
  unfolding step
  made-Keeps os id bytes ptr m x free full users atchs agrees
        (new, some_free, pos, fits, (key, shm, drawn, given, mapped_there)) =
      let unknown = lookup-Unknown id m.shared full agrees.holds.stored new in
      let (b, m', got, made) =
        get_buffer-Created capacity fuel os id bytes m x key free (keys full) agrees.holds.linked
          enough unknown pos drawn shm ptr fits given mapped_there in
      (
        m',
        >>=-ok (get_buffer fuel os id bytes) (λ _. pure tt) m m' b got,
        record {
          holds = record {
            linked = made.linked;
            stored = (
              made.stored,
              Stored-frame (storage m) (storage m') full
                  (λ a k.
                    ap (λ d. d.id) (made.others a (ground (arith, made.linked.full_distinct.0))))
                  agrees.holds.stored,
            );
          };
          counted = λ a. elim (Bool-cases (x == a)) [
            | inl same ↦ ground (arith, made.refs)
            | inr other ↦ rw other (ap (λ d. d.ref_count) (made.others a other) ∙ agrees.counted a)
          ];
          bounded = λ a. ground (arith, agrees.bounded a);
          attached = made.atchs ∙ ap (λ l. (x, ptr) ∷ erase_atch x l) agrees.attached;
          in_use = λ a. ground (arith, agrees.in_use a);
        },
      )

  pub made_any-Keeps :
      (os : Os) (id : List ℕ) (bytes ptr : ℕ) (m : Manager) (free : List ℕ) (full : List Entry)
      (users : ℕ → ℕ) (atchs : List (ℕ × ℕ))
      → Agrees capacity m (record {
        registry = record { free = free; full = full };
        users = users;
        attached = atchs;
      })
      → IsNew fuel os id bytes ptr (record {
        registry = record { free = free; full = full };
        users = users;
        attached = atchs;
      })
      → Keeps capacity (step fuel (created os id bytes ptr)) m (
          with_new id ptr free (record {
            registry = record { free = free; full = full };
            users = users;
            attached = atchs;
          }))
  made_any-Keeps os id bytes ptr m [] full users atchs agrees (new, some_free, pos, fits, rest) =
      absurd (omega arith)
  made_any-Keeps os id bytes ptr m (x ∷ free) full users atchs agrees legal =
      made-Keeps os id bytes ptr m x free full users atchs agrees legal
