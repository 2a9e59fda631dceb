-- ===== src/Pci.antt =====
-- pcie/pcie.cpp (legacy PCI configuration by ports) and the PCI calls of
-- extra/uacpi/uacpi_kernel_wrapper.cpp. A call that writes to ports returns what it writes, in
-- order; what the port 0xCFC reads is an argument.
pub mod Address
pub mod Access
mod Tests
use Prim.Native.Nat.{bit_and, bit_or}
use helix_kernel.Prelude.{
  ℕ, ◌+◌, ◌*◌, ◌/◌, ◌%◌, ◌^◌, Option, none, some, List, [], ◌∷◌, ◌++◌, ◌==◌, if◌then◌else◌,
}

-- `outb`, `outw` and `outl`: port and value.
pub data PortWrite : Type 0 where
  outb outw outl : ℕ → ℕ → PortWrite

-- A shift of a `uint32_t`.
abbrev pub shl32 : ℕ → ℕ → ℕ
shl32 x k = x * 2 ^ k % 2 ^ 32

-- `addr` of `pci_read` and `pci_write`.
unfoldable pub config_address : ℕ → ℕ → ℕ → ℕ → ℕ
config_address b d f offset =
    bit_or (bit_or (bit_or (bit_or (2 ^ 31) (shl32 b 16)) (shl32 d 11)) (shl32 f 8))
      (bit_and offset 0xfc)

-- `pcie::legacy::pci_read`: the writes, and the value. `inl` is what the port 0xCFC then reads.
unfoldable pub pci_read : ℕ → ℕ → ℕ → ℕ → ℕ → List PortWrite × ℕ
pci_read inl b d f offset = (
  outl 0xcf8 (config_address b d f offset) ∷ [],
  bit_and (inl / 2 ^ (bit_and offset 2 * 8)) 0xffff,
)

-- The `switch` of `pci_write`.
unfoldable pub write_data : ℕ → ℕ → ℕ → List PortWrite
write_data value bytes offset =
    if bytes == 1
    then outb (0xcfc + bit_and offset 3) (value % 2 ^ 8) ∷ []
    else if bytes == 2
    then outw (0xcfc + bit_and offset 2) (value % 2 ^ 16) ∷ []
    else if bytes == 4
    then outl 0xcfc value ∷ []
    else []

-- `pcie::legacy::pci_write`: the parameters stand in the order of the source.
unfoldable pub pci_write : ℕ → ℕ → ℕ → ℕ → ℕ → ℕ → List PortWrite
unfolding write_data
pci_write b d f value bytes offset =
    outl 0xcf8 (config_address b d f offset) ∷ write_data value bytes offset

-- `uacpi_pci_dev`
pub record PciDevice : Type 0 where
  pub bus : ℕ
  pub device : ℕ
  pub function : ℕ

-- `uacpi_kernel_pci_read8` and its kin: the offset becomes the `uint8_t` of `pci_read`.
unfoldable pub kernel_pci_read8 : ℕ → PciDevice → ℕ → List PortWrite × ℕ
kernel_pci_read8 inl v offset =
    let (ws, value) = pci_read inl v.bus v.device v.function (offset % 2 ^ 8) in (ws, value % 2 ^ 8)

unfoldable pub kernel_pci_read16 : ℕ → PciDevice → ℕ → List PortWrite × ℕ
kernel_pci_read16 inl v offset =
    let (ws, value) = pci_read inl v.bus v.device v.function (offset % 2 ^ 8) in
    (ws, value % 2 ^ 16)

unfoldable pub kernel_pci_read32 : ℕ → PciDevice → ℕ → List PortWrite × ℕ
kernel_pci_read32 inl v offset = pci_read inl v.bus v.device v.function (offset % 2 ^ 8)

-- `pci_write(b, d, f, offset, 1, value)`: `data` is the offset, and `offset` the value.
unfoldable pub kernel_pci_write8 : PciDevice → ℕ → ℕ → List PortWrite
kernel_pci_write8 v offset value =
    pci_write v.bus v.device v.function (offset % 2 ^ 32) 1 (value % 2 ^ 8)

unfoldable pub kernel_pci_write16 : PciDevice → ℕ → ℕ → List PortWrite
kernel_pci_write16 v offset value =
    pci_write v.bus v.device v.function (offset % 2 ^ 32) 2 (value % 2 ^ 8)

unfoldable pub kernel_pci_write32 : PciDevice → ℕ → ℕ → List PortWrite
kernel_pci_write32 v offset value =
    pci_write v.bus v.device v.function (offset % 2 ^ 32) 4 (value % 2 ^ 8)

-- `uacpi_pci_address`, whose segment nothing reads.
pub record PciAddress : Type 0 where
  pub segment : ℕ
  pub bus : ℕ
  pub device : ℕ
  pub function : ℕ

-- What stands behind the handles.
abbrev pub PciDevices : Type 0
PciDevices = ℕ → Option PciDevice

unfoldable pub put_device : ℕ → Option PciDevice → PciDevices → PciDevices
put_device handle v vs x = if x == handle then v else vs x

-- `uacpi_kernel_pci_device_open`: the handle is what `malloc` returned, and `none` is the write
-- through `nullptr`.
unfoldable pub kernel_pci_device_open : ℕ → PciAddress → PciDevices → Option (ℕ × PciDevices)
kernel_pci_device_open fresh a vs =
    let v : PciDevice = record {
      bus = a.bus % 2 ^ 8;
      device = a.device % 2 ^ 8;
      function = a.function % 2 ^ 8;
    } in
    if fresh == 0 then none else some (fresh, put_device fresh (some v) vs)

unfoldable pub kernel_pci_device_close : ℕ → PciDevices → PciDevices
kernel_pci_device_close handle vs = put_device handle none vs
