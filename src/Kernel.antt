-- ===== src/Kernel.antt =====
-- kernel/main.c: the start of the kernel, from the parts that the other modules model.
pub mod Timer
use waddle_os.Base.{
  ℕ, zero, suc, ◌+◌, ◌*◌, ◌==◌, if◌then◌else◌, List, [], ◌∷◌, Outcome, ok, halt, spin, ◌>>=◌,
}
use waddle_os.Memory.{Memory}
use waddle_os.Machine.{Machine, Cmd, pure, ◌>>◌}
use waddle_os.Interrupts
use waddle_os.Serial
use waddle_os.Pit
use waddle_os.Term
use waddle_os.Printf.{str, int, uint64}
use waddle_os.Log.{printf}
use waddle_os.Paging.Pools.{Pools, get_pages}
use waddle_os.Paging.Init.{paging_init}
use waddle_os.Wdmalloc
use waddle_os.Wdmalloc.{Wd}

-- What the boot code and the linker provide, and the bounds of the two loops that wait.
pub record Image : Type 0 where
  pub mboot_magic : ℕ
  pub mboot_tags : ℕ
  pub kernel_end : ℕ
  pub exc_stubs : ℕ → ℕ
  pub isr_stubs : ℕ → ℕ
  pub idt : ℕ
  pub page_fault_handler : ℕ
  pub timer_interrupt : ℕ
  pub tag_fuel : ℕ
  pub port_fuel : ℕ

-- The state of the kernel: devices and driver tables, the screen, the page pools with their memory,
-- and the heap, whose memory is the same.
pub record Kernel : Type 0 where
  pub machine : Machine
  pub term : Term.Term
  pub pools : Pools
  pub heap : Wd

abbrev pub bootloader_magic : ℕ
bootloader_magic = 0x36D76289

abbrev pub kernel_heap_pages : ℕ
kernel_heap_pages = 10

-- Before its initialisation the heap's static variables are zero.
abbrev no_heap : Memory → Wd
no_heap m = record { mem = m; freelist_head = 0; heap_start = 0; heap_size = 0 }

-- `kernel_main` up to `interrupts_enable`.
pub kernel_init : Image → Machine → Term.Term → Memory → Outcome Kernel
kernel_init image machine term m = do
  (_, quiet) ← Interrupts.disable machine
  (_, serial) ←
      if image.mboot_magic == bootloader_magic then Serial.init Serial.com1 quiet else halt
  (_, gates) ← Interrupts.init image.exc_stubs image.isr_stubs image.idt serial
  (paged, pools, cr3) ←
      paging_init image.tag_fuel image.mboot_tags image.kernel_end image.page_fault_handler m gates
  (start, pools') ← get_pages kernel_heap_pages 0 pools
  (_, heap) ← Wdmalloc.init pools'.mem start (kernel_heap_pages * 4096) (no_heap pools'.mem)
  (_, ticking) ← Pit.init image.timer_interrupt 100 paged
  (_, ready) ← Interrupts.enable ticking
  ok (record {
    machine = ready;
    term = Term.clear term;
    pools = record pools' { mem = heap.mem };
    heap = heap;
  })

-- `Hello World! %s %d %x` with its line end.
abbrev hello_text : List ℕ
hello_text =
    b'H' ∷ b'e' ∷ b'l' ∷ b'l' ∷ b'o' ∷ 0x20 ∷ b'W' ∷ b'o' ∷ b'r' ∷ b'l' ∷ b'd' ∷ b'!' ∷ 0x20 ∷ b'%'
    ∷ b's' ∷ 0x20 ∷ b'%' ∷ b'd' ∷ 0x20 ∷ b'%' ∷ b'x' ∷ 0x0A ∷ 0x0D ∷ []

-- The loop that prints, from `i` on; the delay after each text is left out.
pub hello : ℕ → ℕ → ℕ → Cmd (Unit {0})
hello fuel zero i = pure tt
hello fuel (suc rounds) i = do
  printf fuel hello_text (str (b'a' ∷ b'b' ∷ b'c' ∷ []) ∷ int i ∷ uint64 i ∷ [])
  hello fuel rounds (i + 1)

-- `kernel_main`, which ends in a loop without end.
pub kernel_main : Image → Machine → Term.Term → Memory → Outcome (Unit {0})
kernel_main image machine term m = do
  kernel ← kernel_init image machine term m
  _ ← hello image.port_fuel 100 0 kernel.machine
  spin
