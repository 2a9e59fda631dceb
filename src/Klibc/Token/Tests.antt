-- ===== src/Klibc/Token/Tests.antt =====
-- Strings in memory, as klibc/cstring.cpp cuts, searches and copies them.
use helix_kernel.Prelude.{ℕ, zero, suc, ◌≡◌, refl, some, List, [], ◌∷◌, arith}
use helix_kernel.Klibc.{Memory}
use helix_kernel.Klibc.Find.{find_byte, address_of}
use helix_kernel.Klibc.Token.{strtok_r, strstr}
use helix_kernel.Klibc.Token.Split.{lead, is_delim}
use helix_kernel.Klibc.Token.Cut.{next_token, Returns, strtok_r-next_token}
use helix_kernel.Klibc.Token.Search.{find_list, starts_with, strstr-find_list}

-- The bytes of the list from address 1 on, zeros behind them.
abbrev bytes : List ℕ → Memory
bytes [] a = 0
bytes (x ∷ xs) zero = 0
bytes (x ∷ xs) (suc zero) = x
bytes (x ∷ xs) (suc (suc a)) = bytes xs (suc a)

-- ";", then ";ab;c" at 3.
abbrev mem : Memory
mem = bytes (b';' ∷ 0 ∷ b';' ∷ b'a' ∷ b'b' ∷ b';' ∷ b'c' ∷ 0 ∷ [])

abbrev line : List ℕ
line = b';' ∷ b'a' ∷ b'b' ∷ b';' ∷ b'c' ∷ []

strtok_r-next_token_example :
    (r : ℕ × ℕ × Memory) × (strtok_r 9 0 1 3 mem ≡ some r)
    × Returns mem (next_token (b';' ∷ []) line) r
strtok_r-next_token_example =
    strtok_r-next_token 1 9 (b';' ∷ []) mem (omega arith) (omega arith) (omega arith) 0 3 3 line
      refl (omega arith) (omega arith) (omega arith)

next_token_runs : next_token (b';' ∷ []) line ≡ some (b'a' ∷ b'b' ∷ [], some (b'c' ∷ []))
unfolding lead is_delim find_byte
next_token_runs = refl

strstr-find_list_example : strstr 9 3 7 mem ≡ some (address_of 3 (find_list (b'c' ∷ []) line))
strstr-find_list_example =
    strstr-find_list 9 3 7 (b'c' ∷ []) line mem (omega arith) (omega arith) (omega arith)
      (omega arith)

find_list_runs : find_list (b'c' ∷ []) line ≡ some 4
unfolding find_list starts_with
find_list_runs = refl
