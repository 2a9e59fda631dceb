-- ===== src/Pci/Address.antt =====
-- The configuration address of pcie/pcie.cpp: which bits name what.
use helix_kernel.Prelude.{ℕ, ◌+◌, ◌*◌, ◌/◌, ◌%◌, ◌^◌, ◌<◌, ◌≡◌, arith}
use helix_kernel.Prelude.Bits.{bit_or-disjoint, bit_and-register}
use helix_kernel.Pci.{config_address, shl32}

-- For a bus below 256, a device below 32 and a function below 8 the fields of the address do not
-- overlap.
pub config_address_lem :
    (b d f offset : ℕ)
    → b < 256
    → d < 32
    → f < 8
    → config_address b d f offset
      ≡ 2 ^ 31 + b * 2 ^ 16 + d * 2 ^ 11 + f * 2 ^ 8 + offset / 4 % 64 * 4
unfolding config_address
config_address_lem b d f offset hb hd hf =
    let eb : shl32 b 16 ≡ b * 2 ^ 16 = omega arith in
    let ed : shl32 d 11 ≡ d * 2 ^ 11 = omega arith in
    let ef : shl32 f 8 ≡ f * 2 ^ 8 = omega arith in
    let o1 = bit_or-disjoint 24 128 (b * 2 ^ 16) (omega arith) in
    let o2 = bit_or-disjoint 16 (2 ^ 15 + b) (d * 2 ^ 11) (omega arith) in
    let o3 = bit_or-disjoint 11 (2 ^ 20 + b * 2 ^ 5 + d) (f * 2 ^ 8) (omega arith) in
    let o4 =
      bit_or-disjoint 8 (2 ^ 23 + b * 2 ^ 8 + d * 2 ^ 3 + f) (offset / 4 % 64 * 4) (omega arith) in
    let e2 : 2 ^ 31 + b * 2 ^ 16 ≡ (2 ^ 15 + b) * 2 ^ 16 = omega arith in
    let e3 : (2 ^ 15 + b) * 2 ^ 16 + d * 2 ^ 11 ≡ (2 ^ 20 + b * 2 ^ 5 + d) * 2 ^ 11 = omega arith in
    let e4 : (2 ^ 20 + b * 2 ^ 5 + d) * 2 ^ 11 + f * 2 ^ 8
        ≡ (2 ^ 23 + b * 2 ^ 8 + d * 2 ^ 3 + f) * 2 ^ 8 =
      omega arith in
    rw (eb, ed, ef, bit_and-register offset, o1, e2, o2, e3, o3, e4, o4) (omega arith)
