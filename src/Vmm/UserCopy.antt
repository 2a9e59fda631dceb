-- ===== src/Vmm/UserCopy.antt =====
-- In which direction the copies of mm/vmm.cpp go.
use helix_kernel.Prelude.{ℕ, ◌+◌, ◌-◌, ◌≤◌, ◌<◌, ◌≡◌, ◌≢◌, ◌⊎◌, refl, pos, arith, ◌==◌, false, true}
use helix_kernel.Klibc.{Memory, memcpy}
use helix_kernel.Klibc.Move.{within, memmove_lem, memcpy-eq-memmove}
use helix_kernel.Vmm.{copy_to_user, copy_from_user}

-- `memcpy` between ranges that share no byte: the source is kept, and the destination gets it.
memcpy-apart :
    (dest src n i : ℕ) (mem : Memory)
    → (dest + n ≤ src) ⊎ (src + n ≤ dest)
    → i < n
    → (memcpy dest src n mem (dest + i) ≡ mem (src + i))
      × (memcpy dest src n mem (src + i) ≡ mem (src + i))
memcpy-apart dest src n i mem apart lt =
    let ordered : (dest < src) ⊎ (src + n ≤ dest) = ground arith in
    let e = memcpy-eq-memmove dest src n mem ordered in
    let inside : within dest n (dest + i) ≡ true = ground arith in
    let outside : within dest n (src + i) ≡ false = ground arith in
    let back : src + (dest + i - dest) ≡ src + i = omega arith in
    (
      rw (e, memmove_lem dest src n mem (dest + i), inside, back) refl,
      rw (e, memmove_lem dest src n mem (src + i), outside) refl,
    )

-- `copy_from_user` copies the bytes at `data` to `kernel_memory`, where neither is `nullptr` and
-- the ranges share no byte.
pub copy_from_user_lem :
    (data_pointer kernel_memory n i : ℕ) (mem : Memory)
    → data_pointer ≢ 0
    → kernel_memory ≢ 0
    → (kernel_memory + n ≤ data_pointer) ⊎ (data_pointer + n ≤ kernel_memory)
    → i < n
    → let (result, after) = copy_from_user data_pointer kernel_memory n mem in
      (result ≡ pos 0)
      × (after (kernel_memory + i) ≡ mem (data_pointer + i))
      × (after (data_pointer + i) ≡ mem (data_pointer + i))
unfolding copy_from_user
copy_from_user_lem data_pointer kernel_memory n i mem ns nk apart lt =
    let bs : (data_pointer == 0) ≡ false = ground arith in
    let bk : (kernel_memory == 0) ≡ false = ground arith in
    let (got, kept) = memcpy-apart kernel_memory data_pointer n i mem apart lt in
    rw (bs, bk) (refl, got, kept)

-- `copy_to_user` goes the same way: the user memory is kept, and `data` gets what it holds.
pub copy_to_user_lem :
    (data_pointer user_memory n i : ℕ) (mem : Memory)
    → data_pointer ≢ 0
    → user_memory ≢ 0
    → (data_pointer + n ≤ user_memory) ⊎ (user_memory + n ≤ data_pointer)
    → i < n
    → let (result, after) = copy_to_user data_pointer user_memory n mem in
      (result ≡ pos 0)
      × (after (user_memory + i) ≡ mem (user_memory + i))
      × (after (data_pointer + i) ≡ mem (user_memory + i))
unfolding copy_to_user
copy_to_user_lem data_pointer user_memory n i mem ns nu apart lt =
    let bs : (data_pointer == 0) ≡ false = ground arith in
    let bu : (user_memory == 0) ≡ false = ground arith in
    let (got, kept) = memcpy-apart data_pointer user_memory n i mem apart lt in
    rw (bs, bu) (refl, kept, got)
