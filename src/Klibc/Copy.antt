-- ===== src/Klibc/Copy.antt =====
-- Copying strings by `strcpy` and `strcat` of klibc/cstring.cpp.
use helix_kernel.Prelude.{
  ℕ, zero, suc, ◌+◌, ◌-◌, ◌≤◌, ◌<◌, ◌≡◌, ◌⊎◌, refl, arith, if◌then◌else◌, ◌==◌, true, false, List,
  [], ◌∷◌, some, length, ◌++◌, ◌∙◌, ap,
}
use helix_kernel.Klibc.Move.{within}
use helix_kernel.Klibc.Text.{StrAt}
use helix_kernel.Klibc.{Memory, store, strcpy, seek_end, strcat}

pub StrAt-store :
    (mem : Memory) (a v p : ℕ) (cs : List ℕ)
    → (a < p) ⊎ (p + length cs < a)
    → StrAt mem p cs
    → StrAt (store mem a v) p cs
unfolding store
StrAt-store mem a v p [] h s = ground arith
StrAt-store mem a v p (c ∷ cs) h s =
    (ground arith, s.1, StrAt-store mem a v (p + 1) cs (ground arith) s.2)

-- Where the destination starts below the string or behind its end, `strcpy` copies the string with
-- its zero, and changes no other byte.
pub strcpy_lem :
    (fuel dest src : ℕ) (mem : Memory) (cs : List ℕ)
    → StrAt mem src cs
    → (dest < src) ⊎ (src + length cs < dest)
    → length cs < fuel
    → (mem' : Memory) × (strcpy fuel dest src mem ≡ some mem')
      × ((x : ℕ)
          → mem' x ≡ (if within dest (length cs + 1) x then mem (src + (x - dest)) else mem x))
unfolding strcpy store
strcpy_lem zero dest src mem cs s h f = absurd (omega arith)
strcpy_lem (suc fuel) dest src mem [] s h f =
    (store mem dest (mem src), rw s refl, λ x. ground arith)
strcpy_lem (suc fuel) dest src mem (c ∷ cs) s h f =
    let mem1 = store mem dest (mem src) in
    let go : (mem src == 0) ≡ false = ground arith in
    let (mem', run, at) =
      strcpy_lem fuel (dest + 1) (src + 1) mem1 cs
        (StrAt-store mem dest (mem src) (src + 1) cs (ground arith) s.2) (ground arith)
        (omega arith) in
    (mem', rw go run, λ x. at x ∙ ground arith)

seek_end_lem :
    (fuel p : ℕ) (mem : Memory) (cs : List ℕ)
    → StrAt mem p cs
    → length cs < fuel
    → seek_end fuel p mem ≡ some (p + length cs)
unfolding seek_end
seek_end_lem zero p mem cs s f = absurd (omega arith)
seek_end_lem (suc fuel) p mem [] s f = rw s (ap (λ n. some n) (omega arith))
seek_end_lem (suc fuel) p mem (c ∷ cs) s f =
    let go : (mem p == 0) ≡ false = ground arith in
    rw go (seek_end_lem fuel (p + 1) mem cs s.2 (omega arith) ∙ ap (λ n. some n) (omega arith))

-- A string survives a change outside it.
pub StrAt-same :
    (mem mem' : Memory) (p q : ℕ) (cs : List ℕ)
    → ((k : ℕ) → k ≤ length cs → mem' (q + k) ≡ mem (p + k))
    → StrAt mem p cs
    → StrAt mem' q cs
StrAt-same mem mem' p q [] same s =
    let e : q + 0 ≡ q = omega arith in
    let e' : p + 0 ≡ p = omega arith in
    let h : mem' q ≡ mem p = rw (e, e') at (same 0 (omega arith)) in h ∙ s
StrAt-same mem mem' p q (c ∷ cs) same s =
    let e : q + 0 ≡ q = omega arith in
    let e' : p + 0 ≡ p = omega arith in
    let h : mem' q ≡ mem p = rw (e, e') at (same 0 (omega arith)) in
    (
      h ∙ s.0,
      s.1,
      StrAt-same mem mem' (p + 1) (q + 1) cs
          (λ k hk.
            let f : q + 1 + k ≡ q + suc k = omega arith in
            let f' : p + 1 + k ≡ p + suc k = omega arith in rw (f, f') (same (suc k) (omega arith)))
          s.2,
    )

StrAt-append :
    (mem : Memory) (p : ℕ) (xs ys : List ℕ)
    → (orig : Memory) → StrAt orig p xs
    → ((k : ℕ) → k < length xs → mem (p + k) ≡ orig (p + k))
    → StrAt mem (p + length xs) ys
    → StrAt mem p (xs ++ ys)
StrAt-append mem p [] ys orig s same t = let e : p + 0 ≡ p = omega arith in rw e at t
StrAt-append mem p (c ∷ cs) ys orig s same t =
    let e : p + 0 ≡ p = omega arith in
    let h : mem p ≡ orig p = rw e at (same 0 (omega arith)) in
    let next : p + suc (length cs) ≡ p + 1 + length cs = omega arith in
    (
      h ∙ s.0,
      s.1,
      StrAt-append mem (p + 1) cs ys orig s.2
          (λ k hk. let f : p + 1 + k ≡ p + suc k = omega arith in rw f (same (suc k) (omega arith)))
          (rw next at t),
    )

pub copied_at :
    (end src n k : ℕ) (mem : Memory)
    → k < n
    → (if within end n (end + k) then mem (src + (end + k - end)) else mem (end + k))
      ≡ mem (src + k)
copied_at end src n k mem h =
    let e : end + k - end ≡ k = omega arith in
    let inside : within end n (end + k) ≡ true = ground arith in rw (inside, e)

-- Where the source lies behind the room that the result takes, or ends before the destination,
-- `strcat` leaves the concatenation of the two strings at the destination, and changes nothing
-- outside the bytes from the old end on.
pub strcat-append :
    (fuel dest src : ℕ) (mem : Memory) (xs ys : List ℕ)
    → StrAt mem dest xs
    → StrAt mem src ys
    → (dest + length xs + length ys < src) ⊎ (src + length ys < dest)
    → length xs < fuel
    → length ys < fuel
    → (mem' : Memory) × (strcat fuel dest src mem ≡ some mem')
      × StrAt mem' dest (xs ++ ys)
      × ((x : ℕ) → within (dest + length xs) (length ys + 1) x ≡ false → mem' x ≡ mem x)
unfolding strcat
strcat-append fuel dest src mem xs ys s t h f g =
    let end = dest + length xs in
    let (mem', run, at) = strcpy_lem fuel end src mem ys t (ground arith) g in
    (
      mem',
      rw (seek_end_lem fuel dest mem xs s f, strcat) run,
      StrAt-append mem' dest xs ys mem s (λ k hk. at (dest + k) ∙ ground arith)
          (StrAt-same mem mem' src end ys
            (λ k hk. at (end + k) ∙ copied_at end src (length ys + 1) k mem (omega arith)) t),
      λ x out. at x ∙ rw out,
    )
