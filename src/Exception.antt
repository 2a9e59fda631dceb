-- ===== src/Exception.antt =====
-- `exception_handler` of arch/x86_64/idt/idt.cpp: what it prints, as values. The format strings are
-- left out.
mod Tests
pub mod Flags
use Prim.Native.Nat.{bit_and}
use helix_kernel.Prelude.{ℕ, ◌%◌, ◌^◌, Option, List, [], ◌∷◌, ◌==◌, if◌then◌else◌, get_elem?}

-- `exception_frame`, as far as the stub pushes it.
pub record ExceptionFrame : Type 0 where
  pub rax : ℕ
  pub rbx : ℕ
  pub rcx : ℕ
  pub rdx : ℕ
  pub rbp : ℕ
  pub rsi : ℕ
  pub rdi : ℕ
  pub r8 : ℕ
  pub r9 : ℕ
  pub r10 : ℕ
  pub r11 : ℕ
  pub r12 : ℕ
  pub r13 : ℕ
  pub r14 : ℕ
  pub r15 : ℕ
  pub exception_vector : ℕ
  pub error_code : ℕ
  pub rip : ℕ
  pub cs : ℕ
  pub rflags : ℕ
  pub rsp : ℕ
  pub ss : ℕ

-- The control and segment registers that the handler reads itself.
pub record Registers : Type 0 where
  pub cr0 : ℕ
  pub cr2 : ℕ
  pub cr3 : ℕ
  pub cr4 : ℕ
  pub ds : ℕ
  pub es : ℕ
  pub fs : ℕ
  pub gs : ℕ

-- `(frame->rflags & (1 << bit)) ? letter : '-'`
unfoldable pub flag_letter : ℕ → ℕ → ℕ → ℕ
flag_letter rflags letter bit = if bit_and rflags (2 ^ bit) == 0 then b'-' else letter

unfoldable pub flag_letters : ℕ → List ℕ
unfolding flag_letter
flag_letters rflags =
    flag_letter rflags b'O' 11
    ∷ flag_letter rflags b'D' 10
    ∷ flag_letter rflags b'I' 9
    ∷ flag_letter rflags b'S' 7
    ∷ flag_letter rflags b'Z' 6
    ∷ flag_letter rflags b'A' 4
    ∷ flag_letter rflags b'P' 2
    ∷ flag_letter rflags b'C' 0
    ∷ []

-- The values of each line that is printed, and the name, out of `exception_names`.
pub record Report : Type 0 where
  pub check : List ℕ
  pub general : List ℕ
  pub state : List ℕ
  pub flags : List ℕ
  pub cpl : ℕ
  pub segments : List ℕ
  pub controls : List ℕ
  pub name : Option ℕ
  pub vec : ℕ
  pub err : ℕ

-- `exception_handler`, which prints and returns. `exception_names` holds the addresses of the
-- names, and a name is `none` where the vector has none.
unfoldable pub exception_handler : List ℕ → Registers → ExceptionFrame → Report
unfolding flag_letters
exception_handler exception_names r frame =
    let vec = frame.exception_vector % 2 ^ 8 in
    let level = bit_and frame.cs 3 % 2 ^ 32 in
    record {
      check = vec ∷ frame.error_code ∷ level ∷ frame.cs ∷ frame.rip ∷ frame.rip ∷ r.cr2 ∷ [];
      general =
          frame.rax ∷ frame.rbx ∷ frame.rcx ∷ frame.rdx ∷ frame.rsi ∷ frame.rdi ∷ frame.rbp
          ∷ frame.rsp ∷ frame.r8 ∷ frame.r9 ∷ frame.r10 ∷ frame.r11 ∷ frame.r12 ∷ frame.r13
          ∷ frame.r14 ∷ frame.r15 ∷ [];
      state = frame.rip ∷ frame.rflags ∷ [];
      flags = flag_letters frame.rflags;
      cpl = level;
      segments = r.es ∷ r.ds ∷ frame.ss ∷ frame.cs ∷ r.fs ∷ r.gs ∷ [];
      controls = r.cr0 ∷ r.cr2 ∷ r.cr3 ∷ r.cr4 ∷ [];
      name = get_elem? exception_names vec;
      vec = vec;
      err = frame.error_code;
    }
