-- ===== src/Protocols/Tests.antt =====
-- Answers of the boot loader to protocols/graphics.cpp and protocols/memmap.cpp.
use helix_kernel.Prelude.{◌≡◌, refl, none, some, [], ◌∷◌}
use helix_kernel.Pmm.Initialise.{MemmapEntry, usable}
use helix_kernel.Protocols.{
  Framebuffer, KernelGraphics, make_graphics, get_stride, get_width, get_bpp, initialise_terminal,
  get_framebuffer_ptr, get_height, get_pitch, get_red_mask_size, get_red_mask_shift,
  get_green_mask_size, get_green_mask_shift, get_blue_mask_size, get_blue_mask_shift, make_memmap,
  get_entry,
}

abbrev screen : Framebuffer
screen = record {
  address = 0xffff8000fd000000;
  width = 1024;
  height = 768;
  pitch = 4096;
  bpp = 32;
  red_mask_size = 8;
  red_mask_shift = 16;
  green_mask_size = 8;
  green_mask_shift = 8;
  blue_mask_size = 8;
  blue_mask_shift = 0;
}

abbrev graphics : KernelGraphics
graphics = record { main_framebuffer = screen }

graphics_runs :
    (make_graphics (some (screen ∷ [])) ≡ some graphics)
    × (make_graphics (some []) ≡ none)
    × (get_stride graphics ≡ 1025)
unfolding make_graphics get_stride get_width get_bpp
graphics_runs = (refl, refl, refl)

terminal_runs : initialise_terminal graphics ≡ record {
  framebuffer = 0xffff8000fd000000;
  width = 1024;
  height = 768;
  pitch = 4096;
  masks = (8, 16) ∷ (8, 8) ∷ (8, 0) ∷ [];
}
unfolding initialise_terminal get_framebuffer_ptr get_width get_height get_pitch get_red_mask_size
    get_red_mask_shift get_green_mask_size get_green_mask_shift get_blue_mask_size
    get_blue_mask_shift
terminal_runs = refl

abbrev entry : MemmapEntry
entry = record { kind = usable; base = 0x100000; length = 0x8000 }

memmap_runs :
    (make_memmap none ≡ none)
    × (get_entry (record { entry_count = 1; entries = entry ∷ [] }) 0 ≡ some entry)
    × (get_entry (record { entry_count = 1; entries = entry ∷ [] }) 1 ≡ none)
unfolding make_memmap get_entry
memmap_runs = (refl, refl, refl)
