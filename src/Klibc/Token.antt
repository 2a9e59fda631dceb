-- ===== src/Klibc/Token.antt =====
-- The functions of klibc/cstring.cpp that take strings apart and put them together: `strncat`,
-- `strstr`, `strtok`, `strtok_r`, `strdup` and `strndup`.
pub mod Split
pub mod Cut
pub mod Search
pub mod Duplicate
mod Tests
use mathlib.Core.Option
use helix_kernel.Prelude.{
  ℕ, zero, suc, ◌+◌, ◌%◌, ◌^◌, Bool, true, false, Option, none, some, ltb, ◌==◌, if◌then◌else◌, not,
  ◌&&◌,
}
use helix_kernel.Klibc.{Memory, store, memcpy, strlen, strchr, seek_end}

-- `while (i < n && src[i]) *ptr++ = src[i++]; *ptr = '\0';`, with `r` = n - i.
unfoldable pub append_up : ℕ → ℕ → ℕ → Memory → Memory
append_up zero ptr src mem = store mem ptr 0
append_up (suc r) ptr src mem =
    let rest = append_up r (ptr + 1) (src + 1) (store mem ptr (mem src)) in
    if mem src == 0 then store mem ptr 0 else rest

unfoldable pub strncat : ℕ → ℕ → ℕ → ℕ → Memory → Option Memory
strncat fuel dest src n mem = Option.map (λ ptr. append_up n ptr src mem) (seek_end fuel dest mem)

-- `while (*h && *n && (*h == *n))`: where `n` stops.
unfoldable pub match_from : ℕ → ℕ → ℕ → Memory → Option ℕ
match_from zero h n mem = none
match_from (suc f) h n mem =
    let rest = match_from f (h + 1) (n + 1) mem in
    if not (mem h == 0) && (not (mem n == 0) && (mem h == mem n)) then rest else some n

-- `while (*haystack)` of `strstr`; `some 0` is `nullptr`.
unfoldable pub strstr_loop : ℕ → ℕ → ℕ → ℕ → Memory → Option ℕ
strstr_loop zero fuel haystack needle mem = none
strstr_loop (suc f) fuel haystack needle mem =
    let rest = strstr_loop f fuel (haystack + 1) needle mem in
    if mem haystack == 0 then some 0 else elim (match_from fuel haystack needle mem) [
      | none ↦ none
      | some n ↦ if mem n == 0 then some haystack else rest
    ]

unfoldable pub strstr : ℕ → ℕ → ℕ → Memory → Option ℕ
strstr fuel haystack needle mem =
    if mem needle == 0 then some haystack else strstr_loop fuel fuel haystack needle mem

-- `while (*s && strchr(delim, *s)) s++;`, and with `wanted` false `!strchr(delim, *s)`.
unfoldable pub skip : Bool → ℕ → ℕ → ℕ → ℕ → Memory → Option ℕ
skip wanted zero fuel s delim mem = none
skip wanted (suc f) fuel s delim mem =
    let rest = skip wanted f fuel (s + 1) delim mem in
    if mem s == 0 then some s else elim (strchr fuel delim (mem s) mem) [
      | none ↦ none
      | some found ↦
          if found == 0
          then (if wanted then some s else rest)
          else (if wanted then rest else some s)
    ]

-- `strtok_r` behind the first loop: the token, what `*saveptr` holds then, and the memory.
unfoldable pub cut_token : ℕ → ℕ → ℕ → Memory → Option (ℕ × ℕ × Memory)
cut_token fuel s delim mem =
    if mem s == 0
    then some (0, 0, mem)
    else Option.map (λ end. if mem end == 0 then (s, 0, mem) else (s, end + 1, store mem end 0))
        (skip false fuel fuel s delim mem)

-- `strtok_r`, with what `*saveptr` holds before the call.
unfoldable pub strtok_r : ℕ → ℕ → ℕ → ℕ → Memory → Option (ℕ × ℕ × Memory)
strtok_r fuel str delim saveptr mem =
    let s = if str == 0 then saveptr else str in
    if s == 0
    then some (0, 0, mem)
    else Option.bind (skip true fuel fuel s delim mem) λ start. cut_token fuel start delim mem

-- `strtok`, with the static `next`.
unfoldable pub strtok : ℕ → ℕ → ℕ → ℕ → Memory → Option (ℕ × ℕ × Memory)
strtok fuel str delim next mem =
    let from = if str == 0 then next else str in
    if from == 0
    then some (0, 0, mem)
    else Option.bind (skip true fuel fuel from delim mem) λ start.
      if mem start == 0
      then some (0, 0, mem)
      else Option.bind (skip false fuel fuel start delim mem) λ end.
        if mem end == 0 then some (start, 0, mem) else some (start, end + 1, store mem end 0)

-- `strdup`, where `malloc` returns `new_str`.
unfoldable pub strdup : ℕ → ℕ → ℕ → Memory → Option Memory
strdup fuel new_str s mem =
    Option.map (λ szs. store (memcpy new_str s szs mem) (new_str + szs) 0) (strlen fuel s mem)

-- `strndup`; no zero is written.
unfoldable pub strndup : ℕ → ℕ → ℕ → ℕ → Memory → Option Memory
strndup fuel new_str s n mem =
    Option.map (λ szs. memcpy new_str s (if ltb n szs then n else szs) mem) (strlen fuel s mem)
