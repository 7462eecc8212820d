-- ===== src/Buffers/Registry/Lost.antt =====
-- What putFreeDescriptor does to a descriptor while another one is free: nextFreeIdx stays, and
-- nothing leads to the released descriptor.
use cppgenerics.Prelude.{
  ℕ, ◌<◌, ◌≡◌, ◌∙◌, subst, sym, true, false, some, List, [], ◌∷◌, ◌==◌, has, arith, Bool-cases, inl,
  inr,
}
use cppgenerics.Buffers.Descriptors.{Shared, put_free_descriptor}
use cppgenerics.Buffers.Linked.{free_with}
use cppgenerics.Buffers.Registry.{
  Op, reserve, release, search, Reply, reserved, run, Entry, keys, remove, run_spec, Behind,
  AreLegal,
}
use cppgenerics.Buffers.Registry.Refine.{Holds, release_refines, run_refines, keys-remove}

-- No reply hands out the index.
abbrev IsOther : ℕ → Reply → Type 0
IsOther d (reserved (some i)) = (i == d) ≡ false
IsOther d _ = Unit {0}

abbrev pub NeverReserved : ℕ → List Reply → Type 0
NeverReserved d [] = Unit {0}
NeverReserved d (reply ∷ replies) = IsOther d reply × NeverReserved d replies

-- An index in neither list.
abbrev IsLostIn : ℕ → List ℕ → List Entry → Type 0
IsLostIn d free full = (has d free ≡ false) × (has d (keys full) ≡ false)

remove-lost :
    (d i : ℕ) (es : List Entry) → has d (keys es) ≡ false → has d (keys (remove i es)) ≡ false
remove-lost d i [] out = out
remove-lost d i ((j, id) ∷ es) out = elim (Bool-cases (j == i)) [
  | inl same ↦ rw same (ground arith)
  | inr other ↦ rw other (ground (arith, remove-lost d i es))
]

free_with-lost :
    (d i : ℕ) (free : List ℕ)
    → (i == d) ≡ false
    → has d free ≡ false
    → has d (free_with i free) ≡ false
free_with-lost d i [] differs out = ground arith
free_with-lost d i (x ∷ xs) differs out = out

-- A legal release is of another index.
Behind-other :
    (d i : ℕ) (full : List Entry) → Behind i full → has d (keys full) ≡ false → (i == d) ≡ false
Behind-other d i [] legal out = absurd legal
Behind-other d i ((j, id) ∷ es) legal out = elim (Bool-cases (i == d)) [
  | inl same ↦
      (let e : i ≡ d = ground arith in
        let there = subst (λ k. has k (keys es) ≡ true) e legal.1 in ground arith)
  | inr other ↦ other
]

Behind-in : (i : ℕ) (full : List Entry) → Behind i full → has i (keys full) ≡ true
Behind-in i [] legal = absurd legal
Behind-in i ((j, id) ∷ es) legal = ground (arith, legal.1)

run_spec-lost :
    (d : ℕ) (ops : List Op) (free : List ℕ) (full : List Entry)
    → AreLegal ops (record { free = free; full = full })
    → IsLostIn d free full
    → NeverReserved d (run_spec ops (record { free = free; full = full }))
run_spec-lost d [] free full legal lost = tt
run_spec-lost d (reserve id bytes ∷ ops) [] full legal lost =
    (tt, run_spec-lost d ops [] full legal.1 lost)
run_spec-lost d (reserve id bytes ∷ ops) (x ∷ free) full legal lost =
    (ground arith, run_spec-lost d ops free _ legal.1 (ground arith, ground arith))
run_spec-lost d (release i ∷ ops) free full legal lost =
    let differs = Behind-other d i full legal.0 lost.1 in
    (
      tt,
      run_spec-lost d ops (free_with i free) (remove i full) legal.1
          (free_with-lost d i free differs lost.0, remove-lost d i full lost.1),
    )
run_spec-lost d (search id ∷ ops) free full legal lost =
    (tt, run_spec-lost d ops free full legal.1 lost)

-- In a table that holds a registry, with fuel above the capacity, when putFreeDescriptor releases an
-- index that is in use and not taken last while another one is free: no operations after it that
-- release no index but those in use and not taken last ever hand out the released index again.
pub run-put_free_descriptor :
    (capacity fuel : ℕ) (d x : ℕ) (ops : List Op) (s : Shared) (free : List ℕ) (full : List Entry)
    → capacity < fuel
    → Holds capacity s (record { free = x ∷ free; full = full })
    → Behind d full
    → AreLegal ops (record { free = x ∷ free; full = remove d full })
    → NeverReserved d (run fuel ops (put_free_descriptor d s))
run-put_free_descriptor capacity fuel d x ops s free full enough h legal later =
    let after = release_refines capacity fuel enough d s (x ∷ free) full h legal in
    let out : has d (x ∷ free) ≡ false = ground (arith, h.linked.apart d, Behind-in d full legal) in
    let gone : has d (keys (remove d full)) ≡ false =
      keys-remove d d full h.linked.full_distinct ∙ ground arith in
    subst (NeverReserved d)
      (sym (
        run_refines capacity fuel enough ops (put_free_descriptor d s)
          (record { free = x ∷ free; full = remove d full }) after later))
      (run_spec-lost d ops (x ∷ free) (remove d full) later (out, gone))
