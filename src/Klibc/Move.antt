-- ===== src/Klibc/Move.antt =====
-- What `memcpy`, `memset`, `memmove` and `memcmp` of klibc/cstring.cpp do to memory.
use helix_kernel.Prelude.{
  ℕ, zero, suc, ◌+◌, ◌-◌, ◌%◌, ◌^◌, ◌≤◌, ◌<◌, ◌≡◌, ◌⊎◌, inl, inr, ◌↔◌, refl, arith, ltb, leb, ◌&&◌,
  if◌then◌else◌, ◌==◌, Bool-cases, pos, fun_ext, ap,
}
use native.Mathlib.Decide.{ℕ_discrete}
use helix_kernel.Prelude.{Bool}
use helix_kernel.Klibc.{
  Memory, store, copy_up, copy_down, memcpy, fill, memset, memmove, compare_up, memcmp,
}

-- The address lies in the `n` bytes from `s` on.
abbrev pub within : ℕ → ℕ → ℕ → Bool
within s n x = leb s x && ltb x (s + n)

copy_up_lem :
    (r i dest src : ℕ) (mem : Memory) (x : ℕ)
    → (dest < src) ⊎ (src + i + r ≤ dest + i)
    → copy_up r i dest src mem x ≡ (if within (dest + i) r x then mem (src + (x - dest)) else mem x)
unfolding copy_up store
copy_up_lem zero i dest src mem x h = ground arith
copy_up_lem (suc r) i dest src mem x h =
    ground (arith, copy_up_lem r (i + 1) dest src (store mem (dest + i) (mem (src + i))) x)

copy_down_lem :
    (n dest src : ℕ) (mem : Memory) (x : ℕ)
    → src < dest
    → copy_down n dest src mem x ≡ (if within dest n x then mem (src + (x - dest)) else mem x)
unfolding copy_down store
copy_down_lem zero dest src mem x h = ground arith
copy_down_lem (suc i) dest src mem x h =
    ground (arith, copy_down_lem i dest src (store mem (dest + i) (mem (src + i))) x)

copy_self :
    (dest n : ℕ) (mem : Memory) (x : ℕ)
    → (if within dest n x then mem (dest + (x - dest)) else mem x) ≡ mem x
copy_self dest n mem x = elim (Bool-cases (within dest n x)) [
  | inl yes_in ↦ rw yes_in (ap mem (ground arith))
  | inr out ↦ rw out
]

-- After `memmove` the destination holds what the source held before the call, however the two
-- ranges overlap, and every other byte is unchanged.
pub memmove_lem :
    (dest src n : ℕ) (mem : Memory) (x : ℕ)
    → memmove dest src n mem x ≡ (if within dest n x then mem (src + (x - dest)) else mem x)
unfolding memmove
memmove_lem dest src n mem x =
    ground (
      arith,
      copy_up_lem n 0 dest src mem x,
      copy_down_lem n dest src mem x,
      copy_self dest n mem x,
    )

-- `memcpy` gives what `memmove` gives, where the destination starts below the source or behind its
-- end.
pub memcpy-eq-memmove :
    (dest src n : ℕ) (mem : Memory)
    → (dest < src) ⊎ (src + n ≤ dest)
    → memcpy dest src n mem ≡ memmove dest src n mem
unfolding memcpy
memcpy-eq-memmove dest src n mem h =
    fun_ext λ x. ground (arith, copy_up_lem n 0 dest src mem x, memmove_lem dest src n mem x)

fill_lem :
    (r i s c : ℕ) (mem : Memory) (x : ℕ)
    → fill r i s c mem x ≡ (if within (s + i) r x then c else mem x)
unfolding fill store
fill_lem zero i s c mem x = ground arith
fill_lem (suc r) i s c mem x = ground (arith, fill_lem r (i + 1) s c (store mem (s + i) c) x)

-- `memset` sets the `n` bytes from `s` on to the low byte of `c`, and no other.
pub memset_lem :
    (s c n : ℕ) (mem : Memory) (x : ℕ)
    → memset s c n mem x ≡ (if within s n x then c % 2 ^ 8 else mem x)
unfolding memset
memset_lem s c n mem x = ground (arith, fill_lem n 0 s (c % 2 ^ 8) mem x)

compare_up_lem :
    (r i s1 s2 : ℕ) (mem : Memory)
    → (compare_up r i s1 s2 mem ≡ pos 0)
      ↔ ((k : ℕ) → i ≤ k → k < i + r → mem (s1 + k) ≡ mem (s2 + k))
unfolding compare_up
compare_up_lem zero i s1 s2 mem = (λ _ k lo hi. absurd (omega arith), λ _. refl)
compare_up_lem (suc r) i s1 s2 mem =
    let (there, back) = compare_up_lem r (i + 1) s1 s2 mem in
    elim (Bool-cases (mem (s1 + i) == mem (s2 + i))) [
      | inl same ↦ rw same (
        (λ e k lo hi. elim (ℕ_discrete k i) [
          | yes at ↦ rw at (ground arith)
          | no above ↦ there e k (omega arith) (omega arith)
        ]),
        (λ all. back (λ k lo hi. all k (omega arith) (omega arith))),
      )
      | inr differs ↦ rw differs (
        (λ e. absurd (ground arith)),
        (λ all. absurd (ground (arith, all i (omega arith) (omega arith)))),
      )
    ]

-- `memcmp` returns 0 exactly when the two ranges hold the same bytes.
pub memcmp-eq_zero :
    (s1 s2 n : ℕ) (mem : Memory)
    → (memcmp s1 s2 n mem ≡ pos 0) ↔ ((k : ℕ) → k < n → mem (s1 + k) ≡ mem (s2 + k))
unfolding memcmp
memcmp-eq_zero s1 s2 n mem =
    let (there, back) = compare_up_lem n 0 s1 s2 mem in
    (
      (λ e k h. there e k (omega arith) (omega arith)),
      (λ all. back (λ k lo hi. all k (omega arith))),
    )
