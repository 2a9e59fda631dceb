-- ===== src/Io/Tests.antt =====
-- The port ranges of resources/io.cpp at a concrete vector.
use helix_kernel.Prelude.{
  ℕ, ◌+◌, ◌%◌, ◌^◌, ◌≡◌, some, [], ◌∷◌, if◌then◌else◌, ltb, leb, ◌||◌, ◌<◌, arith, refl, none,
}
use helix_kernel.Io.{
  Vector, IoMapping, address, load, map_io, kernel_io_map, kernel_io_unmap, kernel_io_read8, grow,
  push_back,
}
use helix_kernel.Io.Handles.{kernel_io_map-load, kernel_io_unmap-load}

abbrev range : ℕ → IoMapping
range base = record { base_port = base; len_ports = 8; owner = 0x9000 }

abbrev two : Vector IoMapping
two = record {
  data_start = 0x4000;
  capacity = 4;
  items = range 0x60 ∷ range 0x70 ∷ [];
  beyond = [];
}

abbrev full : Vector IoMapping
full = record {
  data_start = 0x4000;
  capacity = 2;
  items = range 0x60 ∷ range 0x70 ∷ [];
  beyond = [];
}

-- A full vector moves, and the handles that were given out reach nothing.
full_moves : load 0x4010 (map_io 0x5000 0x80 8 0x9000 full).1 ≡ none
unfolding load map_io push_back grow
full_moves = refl

kernel_io_map-load_example :
    let (handle, v') = kernel_io_map 0x9000 0x5000 0x10080 8 two in
    (load handle v'
      ≡ some (record { base_port = 0x10080 % 2 ^ 16; len_ports = 8 % 2 ^ 16; owner = 0x9000 }))
    × (kernel_io_read8 handle 2 v' (λ port. port) ≡ some ((0x10080 + 2) % 2 ^ 16))
    × ((i : ℕ) → i < 2 → load (address two i) v' ≡ load (address two i) two)
kernel_io_map-load_example =
    kernel_io_map-load 0x9000 0x5000 0x10080 8 2 (λ port. port) two (omega arith)

kernel_io_unmap-load_example : load (address two 0) (kernel_io_unmap (address two 0) two) ≡ (
    if ltb 0 0 || leb 2 (0 + 1) then load (address two 0) two else load (address two (0 + 1)) two)
kernel_io_unmap-load_example = kernel_io_unmap-load 0 0 two (omega arith)
