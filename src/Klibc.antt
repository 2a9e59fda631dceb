-- ===== src/Klibc.antt =====
-- klibc/cstring.cpp and klibc/cctype.cpp over a memory of bytes. An address is a number; the
-- ranges that a call names do not wrap round the address space. A loop whose end depends on what
-- it reads takes fuel, and `none` means that the fuel ran out.
pub mod Move
pub mod Text
pub mod Find
pub mod Copy
pub mod Ctype
pub mod Token
pub mod Number
mod Tests
use helix_kernel.Prelude.{
  ℕ, zero, suc, ◌+◌, ◌-◌, ◌%◌, ◌^◌, Bool, true, false, Option, none, some, ltb, leb, ◌==◌,
  if◌then◌else◌, ◌&&◌, ◌||◌, not, sub_ℕ, ℤ, pos, negsuc,
}

abbrev pub Memory : Type 0
Memory = ℕ → ℕ

-- `*a = v`
unfoldable pub store : Memory → ℕ → ℕ → Memory
store mem a v x = if x == a then v else mem x

-- `for (i ...; i++) pdest[i] = psrc[i]`, with the rounds left.
unfoldable pub copy_up : ℕ → ℕ → ℕ → ℕ → Memory → Memory
copy_up zero i dest src mem = mem
copy_up (suc r) i dest src mem = copy_up r (i + 1) dest src (store mem (dest + i) (mem (src + i)))

-- `for (i = n; i > 0; i--) pdest[i-1] = psrc[i-1]`
unfoldable pub copy_down : ℕ → ℕ → ℕ → Memory → Memory
copy_down zero dest src mem = mem
copy_down (suc i) dest src mem = copy_down i dest src (store mem (dest + i) (mem (src + i)))

unfoldable pub memcpy : ℕ → ℕ → ℕ → Memory → Memory
memcpy dest src n mem = copy_up n 0 dest src mem

unfoldable pub fill : ℕ → ℕ → ℕ → ℕ → Memory → Memory
fill zero i s c mem = mem
fill (suc r) i s c mem = fill r (i + 1) s c (store mem (s + i) c)

-- `static_cast<uint8_t>(c)`
pub memset : ℕ → ℕ → ℕ → Memory → Memory
memset s c n mem = fill n 0 s (c % 2 ^ 8) mem

pub memmove : ℕ → ℕ → ℕ → Memory → Memory
memmove dest src n mem =
    if ltb dest src
    then copy_up n 0 dest src mem
    else if ltb src dest
    then copy_down n dest src mem
    else mem

-- `p1[i] < p2[i] ? -1 : 1`
pub compare_up : ℕ → ℕ → ℕ → ℕ → Memory → ℤ
compare_up zero i s1 s2 mem = pos 0
compare_up (suc r) i s1 s2 mem =
    let rest = compare_up r (i + 1) s1 s2 mem in
    if mem (s1 + i) == mem (s2 + i)
    then rest
    else if ltb (mem (s1 + i)) (mem (s2 + i))
    then negsuc 0
    else pos 1

pub memcmp : ℕ → ℕ → ℕ → Memory → ℤ
memcmp s1 s2 n mem = compare_up n 0 s1 s2 mem

-- `while (str[len]) len++` on an `unsigned int`.
unfoldable pub strlen_loop : ℕ → ℕ → ℕ → Memory → Option ℕ
strlen_loop zero str len mem = none
strlen_loop (suc f) str len mem =
    let rest = strlen_loop f str ((len + 1) % 2 ^ 32) mem in
    if mem (str + len) == 0 then some len else rest

unfoldable pub strlen : ℕ → ℕ → Memory → Option ℕ
strlen fuel str mem = strlen_loop fuel str 0 mem

-- `(unsigned char)*s1 - (unsigned char)*s2`
pub strcmp : ℕ → ℕ → ℕ → Memory → Option ℤ
strcmp zero s1 s2 mem = none
strcmp (suc f) s1 s2 mem =
    let rest = strcmp f (s1 + 1) (s2 + 1) mem in
    if not (mem s1 == 0) && (mem s1 == mem s2) then rest else some (sub_ℕ (mem s1) (mem s2))

-- `i` goes up to `n`, with `r` = n - i rounds left.
pub strncmp_loop : ℕ → ℕ → ℕ → ℕ → Memory → ℤ
strncmp_loop zero i s1 s2 mem = pos 0
strncmp_loop (suc r) i s1 s2 mem =
    let rest = strncmp_loop r (i + 1) s1 s2 mem in
    if not (mem (s1 + i) == 0) && (mem (s1 + i) == mem (s2 + i))
    then rest
    else sub_ℕ (mem (s1 + i)) (mem (s2 + i))

pub strncmp : ℕ → ℕ → ℕ → Memory → ℤ
strncmp s1 s2 n mem = strncmp_loop n 0 s1 s2 mem

-- `some 0` is `nullptr`.
unfoldable pub strchr : ℕ → ℕ → ℕ → Memory → Option ℕ
strchr zero str c mem = none
strchr (suc f) str c mem =
    let rest = strchr f (str + 1) c mem in
    if mem str == 0 then some 0 else if mem str == c % 2 ^ 8 then some str else rest

-- `last` is the last match so far.
pub strrchr_loop : ℕ → ℕ → ℕ → ℕ → Memory → Option ℕ
strrchr_loop zero s c last mem = none
strrchr_loop (suc f) s c last mem =
    let rest = strrchr_loop f (s + 1) c (if mem s == c % 2 ^ 8 then s else last) mem in
    if mem s == 0 then some last else rest

pub strrchr : ℕ → ℕ → ℕ → Memory → Option ℕ
strrchr fuel s c mem = strrchr_loop fuel s c 0 mem

-- `while ((*ptr++ = *src++));`
pub strcpy : ℕ → ℕ → ℕ → Memory → Option Memory
strcpy zero dest src mem = none
strcpy (suc f) dest src mem =
    let mem' = store mem dest (mem src) in
    let rest = strcpy f (dest + 1) (src + 1) mem' in if mem src == 0 then some mem' else rest

-- `while (*ptr) ptr++;`
unfoldable pub seek_end : ℕ → ℕ → Memory → Option ℕ
seek_end zero ptr mem = none
seek_end (suc f) ptr mem =
    let rest = seek_end f (ptr + 1) mem in if mem ptr == 0 then some ptr else rest

pub strcat : ℕ → ℕ → ℕ → Memory → Option Memory
strcat fuel dest src mem = elim (seek_end fuel dest mem) [
  | none ↦ none
  | some ptr ↦ strcpy fuel ptr src mem
]

-- The second loop of `strncpy`: zeros up to `n`.
pub pad : ℕ → ℕ → ℕ → Memory → Memory
pad zero i dest mem = mem
pad (suc r) i dest mem = pad r (i + 1) dest (store mem (dest + i) 0)

-- `while (i < n && src[i])`, with `r` = n - i, then the second loop.
pub strncpy_loop : ℕ → ℕ → ℕ → ℕ → Memory → Memory
strncpy_loop zero i dest src mem = mem
strncpy_loop (suc r) i dest src mem =
    let rest = strncpy_loop r (i + 1) dest src (store mem (dest + i) (mem (src + i))) in
    if mem (src + i) == 0 then pad (suc r) i dest mem else rest

pub strncpy : ℕ → ℕ → ℕ → Memory → Memory
strncpy dest src n mem = strncpy_loop n 0 dest src mem

-- klibc/cctype.cpp
unfoldable pub is_digit : ℕ → Bool
is_digit c = leb b'0' c && leb c b'9'

unfoldable pub is_space : ℕ → Bool
is_space c = c == 32 || c == 9 || c == 10 || c == 11 || c == 12 || c == 13

pub is_alpha : ℕ → Bool
is_alpha c =
    if leb b'a' c && leb c b'z' then true else if leb b'A' c && leb c b'Z' then true else false

pub is_alnum : ℕ → Bool
is_alnum c = is_alpha c || is_digit c

-- The byte of the `char` result.
pub to_upper : ℕ → ℕ
to_upper c = if leb b'a' c && leb c b'z' then (c + 0x20) % 2 ^ 8 else c

pub to_lower : ℕ → ℕ
to_lower c = (to_upper c + 2 ^ 8 - 0x20) % 2 ^ 8
