-- ===== src/Pci/Access.antt =====
-- What the PCI calls of extra/uacpi/uacpi_kernel_wrapper.cpp read and write through pcie/pcie.cpp.
use helix_kernel.Prelude.{ℕ, ◌+◌, ◌*◌, ◌/◌, ◌%◌, ◌^◌, ◌<◌, ◌≡◌, refl, ap, arith, [], ◌∷◌}
use Prim.Native.Nat.{bit_and}
use helix_kernel.Pci.Address.{config_address_lem}
use helix_kernel.Prelude.Bits.{bit_and-le, bit_and-two, bit_and-three}
use helix_kernel.Pci.{
  outb, outw, outl, PciDevice, config_address, pci_read, pci_write, write_data, kernel_pci_read8,
  kernel_pci_read16, kernel_pci_read32, kernel_pci_write8, kernel_pci_write16, kernel_pci_write32,
}

-- A 32-bit read returns sixteen bits at most, and the same ones as a 16-bit read.
pub kernel_pci_read32-lt :
    (inl offset : ℕ) (v : PciDevice)
    → ((kernel_pci_read32 inl v offset).1 < 2 ^ 16)
      × (kernel_pci_read32 inl v offset ≡ kernel_pci_read16 inl v offset)
unfolding kernel_pci_read32 kernel_pci_read16 pci_read
kernel_pci_read32-lt inl offset v =
    let le = bit_and-le (inl / 2 ^ (bit_and (offset % 2 ^ 8) 2 * 8)) 0xffff in
    (
      omega (arith, le),
      ap (λ n. (outl 0xcf8 (config_address v.bus v.device v.function (offset % 2 ^ 8)) ∷ [], n))
          (omega (arith, le)),
    )

-- An 8-bit read at an odd offset returns the byte at the even offset below it.
pub kernel_pci_read8-odd :
    (inl k : ℕ) (v : PciDevice)
    → k < 128
    → (kernel_pci_read8 inl v (k * 2 + 1)).1 ≡ (kernel_pci_read8 inl v (k * 2)).1
unfolding kernel_pci_read8 pci_read
kernel_pci_read8-odd inl k v h =
    let e : bit_and ((k * 2 + 1) % 2 ^ 8) 2 ≡ bit_and (k * 2 % 2 ^ 8) 2 =
      omega (arith, bit_and-two ((k * 2 + 1) % 2 ^ 8), bit_and-two (k * 2 % 2 ^ 8)) in
    rw e refl

-- The writes of uACPI go to the register that the value names, and what they write there is the
-- offset: `pci_write` takes the two in the other order.
pub kernel_pci_write-swapped :
    (offset value : ℕ) (v : PciDevice)
    → v.bus < 256
    → v.device < 32
    → v.function < 8
    → offset < 256
    → value < 256
    → let register =
        2 ^ 31 + v.bus * 2 ^ 16 + v.device * 2 ^ 11 + v.function * 2 ^ 8 + value / 4 * 4 in
      (kernel_pci_write8 v offset value
        ≡ outl 0xcf8 register ∷ outb (0xcfc + value % 4) offset ∷ [])
      × (kernel_pci_write16 v offset value
          ≡ outl 0xcf8 register ∷ outw (0xcfc + value / 2 % 2 * 2) offset ∷ [])
      × (kernel_pci_write32 v offset value ≡ outl 0xcf8 register ∷ outl 0xcfc offset ∷ [])
unfolding kernel_pci_write8 kernel_pci_write16 kernel_pci_write32 pci_write write_data
kernel_pci_write-swapped offset value v hb hd hf ho hv =
    let eo : offset % 2 ^ 32 ≡ offset = omega arith in
    let e8 : offset % 2 ^ 8 ≡ offset = omega arith in
    let e16 : offset % 2 ^ 16 ≡ offset = omega arith in
    let ev : value % 2 ^ 8 ≡ value = omega arith in
    let em : value / 4 % 64 ≡ value / 4 = omega arith in
    rw
      (
        eo,
        ev,
        e8,
        e16,
        config_address_lem v.bus v.device v.function value hb hd hf,
        em,
        bit_and-two value,
        bit_and-three value,
      )
      (refl, refl, refl)
