-- ===== src/Io.antt =====
-- resources/io.cpp: the port ranges in use, in a vector of klibc/vector, and the port calls of
-- extra/uacpi/uacpi_kernel_wrapper.cpp. A handle is the address of a range in the vector.
pub mod Handles
mod Tests
use helix_kernel.Prelude.{
  ℕ, zero, suc, ◌+◌, ◌-◌, ◌*◌, ◌/◌, ◌%◌, ◌^◌, Option, none, some, List, [], ◌∷◌, ◌++◌, length,
  get_elem?, ltb, leb, ◌==◌, if◌then◌else◌,
}
use helix_kernel.Pci.{PortWrite, outb, outw, outl}

-- `vector<T>`: `data_`, `capacity_` and the elements; `size_` is their number. `beyond` is what the
-- slots from `size_` on were left with.
pub record Vector {ℓ} (A : Type ℓ) : Type ℓ where
  pub data_start : ℕ
  pub capacity : ℕ
  pub items : List A
  pub beyond : List A

module _ {ℓ} {A : Type ℓ} where
  -- `grow`: `fresh` is what `malloc` returns; nothing stands in the slots behind the elements.
  unfoldable pub grow : ℕ → ℕ → Vector A → Vector A
  grow fresh min_cap v =
      let new_cap = if v.capacity == 0 then 4 else v.capacity * 2 in
      record v {
        data_start = fresh;
        capacity = if ltb new_cap min_cap then min_cap else new_cap;
        beyond = [];
      }

  abbrev pub rest_of : List A → List A
  rest_of [] = []
  rest_of (x ∷ xs) = xs

  -- `push_back`: the element is written to the slot at `size_`.
  unfoldable pub push_back : ℕ → A → Vector A → Vector A
  unfolding grow
  push_back fresh value v =
      let w = if leb v.capacity (length v.items) then grow fresh (length v.items + 1) v else v in
      record w { items = v.items ++ (value ∷ []); beyond = rest_of w.beyond }

  abbrev pub remove : List A → ℕ → List A
  remove [] i = []
  remove (x ∷ xs) zero = xs
  remove (x ∷ xs) (suc i) = x ∷ remove xs i

  -- The slot of the last element, which the move does not write, with the slots behind it.
  abbrev pub keep_last : List A → List A → List A
  keep_last [] behind = behind
  keep_last (x ∷ []) behind = x ∷ behind
  keep_last (x ∷ y ∷ xs) behind = keep_last (y ∷ xs) behind

  -- `erase(begin() + i)`: the later elements move down by one, and the last slot keeps its bytes.
  unfoldable pub erase : ℕ → Vector A → Vector A
  erase i v = record v { items = remove v.items i; beyond = keep_last v.items v.beyond }

-- `io_mapping`; the owner is the address of its name.
pub record IoMapping : Type 0 where
  pub base_port : ℕ
  pub len_ports : ℕ
  pub owner : ℕ

-- `sizeof(io_mapping)`
abbrev pub mapping_size : ℕ
mapping_size = 16

-- `&io_mappings[i]`
unfoldable pub address : Vector IoMapping → ℕ → ℕ
address v i = v.data_start + i * mapping_size

-- What stands behind a pointer: the range in a slot of the vector, the slots from `size_` on
-- included, or `none` where no range was written.
unfoldable pub load : ℕ → Vector IoMapping → Option IoMapping
load p v =
    if ltb p v.data_start
    then none
    else if (p - v.data_start) % mapping_size == 0
    then get_elem? (v.items ++ v.beyond) ((p - v.data_start) / mapping_size)
    else none

-- `map_io`: the range and the vector; `fresh` is what `malloc` returns if the vector grows.
unfoldable pub map_io : ℕ → ℕ → ℕ → ℕ → Vector IoMapping → ℕ × Vector IoMapping
unfolding push_back address
map_io fresh base len owner v =
    let w = push_back fresh (record { base_port = base; len_ports = len; owner = owner }) v in
    (address w (length w.items - 1), w)

-- The loop of `unmap_io`, with the rounds left.
unfoldable pub unmap_from : ℕ → ℕ → ℕ → Vector IoMapping → Vector IoMapping
unfolding erase address
unmap_from zero i mapping v = v
unmap_from (suc r) i mapping v =
    let rest = unmap_from r (i + 1) mapping v in if address v i == mapping then erase i v else rest

unfoldable pub unmap_io : ℕ → Vector IoMapping → Vector IoMapping
unmap_io mapping v = unmap_from (length v.items) 0 mapping v

-- `uacpi_kernel_io_map` and `uacpi_kernel_io_unmap`; `name` is the address of "uACPI".
unfoldable pub kernel_io_map : ℕ → ℕ → ℕ → ℕ → Vector IoMapping → ℕ × Vector IoMapping
unfolding map_io
kernel_io_map name fresh base len v = map_io fresh (base % 2 ^ 16) (len % 2 ^ 16) name v

unfoldable pub kernel_io_unmap : ℕ → Vector IoMapping → Vector IoMapping
unfolding unmap_io
kernel_io_unmap handle v = unmap_io handle v

-- `range->base_port + offset` as a port; `none` is a handle behind which there is no range.
unfoldable pub port_of : ℕ → ℕ → Vector IoMapping → Option ℕ
port_of handle offset v = elim (load handle v) [
  | none ↦ none
  | some range ↦ some ((range.base_port + offset) % 2 ^ 16)
]

module _ (handle offset : ℕ) (v : Vector IoMapping) where
  -- `uacpi_kernel_io_read8`, `16` and `32`: `inb`, `inw` and `inl` are what the ports hold.
  unfoldable pub kernel_io_read8 : (ℕ → ℕ) → Option ℕ
  kernel_io_read8 inb = elim (port_of handle offset v) [ none ↦ none | some port ↦ some (inb port) ]

  unfoldable pub kernel_io_read16 : (ℕ → ℕ) → Option ℕ
  kernel_io_read16 inw = elim (port_of handle offset v) [
    | none ↦ none
    | some port ↦ some (inw port)
  ]

  unfoldable pub kernel_io_read32 : (ℕ → ℕ) → Option ℕ
  kernel_io_read32 inl = elim (port_of handle offset v) [
    | none ↦ none
    | some port ↦ some (inl port)
  ]

  -- `uacpi_kernel_io_write8`, `16` and `32`: the write to a port.
  unfoldable pub kernel_io_write8 : ℕ → Option PortWrite
  kernel_io_write8 in_value = elim (port_of handle offset v) [
    | none ↦ none
    | some port ↦ some (outb port in_value)
  ]

  unfoldable pub kernel_io_write16 : ℕ → Option PortWrite
  kernel_io_write16 in_value = elim (port_of handle offset v) [
    | none ↦ none
    | some port ↦ some (outw port in_value)
  ]

  unfoldable pub kernel_io_write32 : ℕ → Option PortWrite
  kernel_io_write32 in_value = elim (port_of handle offset v) [
    | none ↦ none
    | some port ↦ some (outl port in_value)
  ]
