-- ===== src/Protocols.antt =====
-- protocols/graphics.cpp, protocols/memmap.cpp and protocols/rsdp.cpp: what the kernel takes from
-- the boot loader's answers. The answers are arguments; a constructor that halts gives `none`.
pub mod Answers
mod Tests
use helix_kernel.Prelude.{
  ℕ, ◌+◌, ◌*◌, ◌/◌, ◌%◌, ◌^◌, Option, none, some, List, [], ◌∷◌, get_elem?, length,
}
use helix_kernel.Pmm.Initialise.{MemmapEntry}

-- `limine_framebuffer`, as far as the kernel reads it.
pub record Framebuffer : Type 0 where
  pub address : ℕ
  pub width : ℕ
  pub height : ℕ
  pub pitch : ℕ
  pub bpp : ℕ
  pub red_mask_size : ℕ
  pub red_mask_shift : ℕ
  pub green_mask_size : ℕ
  pub green_mask_shift : ℕ
  pub blue_mask_size : ℕ
  pub blue_mask_shift : ℕ

-- `KernelGraphics`
pub record KernelGraphics : Type 0 where
  pub main_framebuffer : Framebuffer

-- `KernelGraphics::KernelGraphics`: the response is `none` for `nullptr`.
unfoldable pub make_graphics : Option (List Framebuffer) → Option KernelGraphics
make_graphics none = none
make_graphics (some []) = none
make_graphics (some (f ∷ fs)) = some (record { main_framebuffer = f })

module _ (g : KernelGraphics) where
  unfoldable pub get_width : ℕ
  get_width = g.main_framebuffer.width

  unfoldable pub get_height : ℕ
  get_height = g.main_framebuffer.height

  unfoldable pub get_pitch : ℕ
  get_pitch = g.main_framebuffer.pitch

  unfoldable pub get_bpp : ℕ
  get_bpp = g.main_framebuffer.bpp

  unfoldable pub get_stride : ℕ
  unfolding get_width get_bpp
  get_stride = (get_width * get_bpp % 2 ^ 64 + 32) % 2 ^ 64 / 32

  unfoldable pub get_red_mask_size : ℕ
  get_red_mask_size = g.main_framebuffer.red_mask_size

  unfoldable pub get_green_mask_size : ℕ
  get_green_mask_size = g.main_framebuffer.green_mask_size

  unfoldable pub get_blue_mask_size : ℕ
  get_blue_mask_size = g.main_framebuffer.blue_mask_size

  unfoldable pub get_red_mask_shift : ℕ
  get_red_mask_shift = g.main_framebuffer.red_mask_shift

  unfoldable pub get_green_mask_shift : ℕ
  get_green_mask_shift = g.main_framebuffer.green_mask_shift

  unfoldable pub get_blue_mask_shift : ℕ
  get_blue_mask_shift = g.main_framebuffer.blue_mask_shift

  unfoldable pub get_framebuffer_ptr : ℕ
  get_framebuffer_ptr = g.main_framebuffer.address

-- The arguments of `flanterm_fb_init` in `__cstdio_initialise_terminal` of klibc/cstdio.cpp that
-- are not constants.
pub record Terminal : Type 0 where
  pub framebuffer : ℕ
  pub width : ℕ
  pub height : ℕ
  pub pitch : ℕ
  pub masks : List (ℕ × ℕ)

unfoldable pub initialise_terminal : KernelGraphics → Terminal
unfolding get_framebuffer_ptr get_width get_height get_pitch get_red_mask_size get_red_mask_shift
    get_green_mask_size get_green_mask_shift get_blue_mask_size get_blue_mask_shift
initialise_terminal g = record {
  framebuffer = get_framebuffer_ptr g;
  width = get_width g;
  height = get_height g;
  pitch = get_pitch g;
  masks =
      (get_red_mask_size g, get_red_mask_shift g)
      ∷ (get_green_mask_size g, get_green_mask_shift g)
      ∷ (get_blue_mask_size g, get_blue_mask_shift g)
      ∷ [];
}

-- `MemMap`, without `total_size_bytes`, which nothing writes.
pub record MemMap : Type 0 where
  pub entry_count : ℕ
  pub entries : List MemmapEntry

-- `MemMap::MemMap`: the response is `none` for `nullptr`; the pointers in it are not `nullptr`.
unfoldable pub make_memmap : Option (List MemmapEntry) → Option MemMap
make_memmap none = none
make_memmap (some []) = none
make_memmap (some (e ∷ es)) = some (record { entry_count = length (e ∷ es); entries = e ∷ es })

unfoldable pub get_num_entries : MemMap → ℕ
get_num_entries m = m.entry_count

-- `MemMap::get_entry`: `none` is a read outside the array.
unfoldable pub get_entry : MemMap → ℕ → Option MemmapEntry
get_entry m idx = get_elem? m.entries idx

-- `rsdp::get_rsdp`, and `*out_rsdp_address` of `uacpi_kernel_get_rsdp`: `none` is the read
-- through a response that is `nullptr`.
unfoldable pub get_rsdp : Option ℕ → Option ℕ
get_rsdp response = response

unfoldable pub kernel_get_rsdp : Option ℕ → Option ℕ
unfolding get_rsdp
kernel_get_rsdp response = get_rsdp response
