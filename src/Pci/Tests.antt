-- ===== src/Pci/Tests.antt =====
-- The theorems on the configuration ports at concrete devices.
use helix_kernel.Prelude.{◌+◌, ◌*◌, ◌/◌, ◌%◌, ◌^◌, ◌≡◌, arith, [], ◌∷◌}
use helix_kernel.Pci.{
  outb, outw, outl, PciDevice, config_address, kernel_pci_write8, kernel_pci_write16,
  kernel_pci_write32,
}
use helix_kernel.Pci.Address.{config_address_lem}
use helix_kernel.Pci.Access.{kernel_pci_write-swapped}

config_address_lem_example :
    config_address 3 31 2 0x13 ≡ 2 ^ 31 + 3 * 2 ^ 16 + 31 * 2 ^ 11 + 2 * 2 ^ 8 + 0x13 / 4 % 64 * 4
config_address_lem_example =
    config_address_lem 3 31 2 0x13 (omega arith) (omega arith) (omega arith)

abbrev disk : PciDevice
disk = record { bus = 1; device = 2; function = 3 }

kernel_pci_write-swapped_example :
    let register = 2 ^ 31 + 1 * 2 ^ 16 + 2 * 2 ^ 11 + 3 * 2 ^ 8 + 6 / 4 * 4 in
    (kernel_pci_write8 disk 0x10 6 ≡ outl 0xcf8 register ∷ outb (0xcfc + 6 % 4) 0x10 ∷ [])
    × (kernel_pci_write16 disk 0x10 6
        ≡ outl 0xcf8 register ∷ outw (0xcfc + 6 / 2 % 2 * 2) 0x10 ∷ [])
    × (kernel_pci_write32 disk 0x10 6 ≡ outl 0xcf8 register ∷ outl 0xcfc 0x10 ∷ [])
kernel_pci_write-swapped_example =
    kernel_pci_write-swapped 0x10 6 disk (omega arith) (omega arith) (omega arith) (omega arith)
      (omega arith)
