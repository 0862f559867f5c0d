-- ===== src/Interrupts/Vectors.antt =====
-- `interrupt_vector_t` of kernel/drivers/interrupts.h: the names of the vectors.
use waddle_os.Base.{ℕ}

pub data Vector : Type 0 where
  exc_divide_error exc_debug exc_nmi_interrupt exc_breakpoint : Vector
  exc_overflow exc_bound_range_exceeded exc_invalid_opcode exc_device_not_available : Vector
  exc_double_fault exc_coprocessor_seg_overrun exc_invalid_tss exc_segment_not_present : Vector
  exc_stack_segment_fault exc_general_protection exc_page_fault exc_reserved_15 : Vector
  exc_x87_fpu_error exc_alignment_check exc_machine_check exc_simd_fp_exception : Vector
  exc_virtualization exc_control_protection exc_reserved_22 exc_reserved_23 : Vector
  exc_reserved_24 exc_reserved_25 exc_reserved_26 exc_reserved_27 : Vector
  exc_reserved_28 exc_reserved_29 exc_reserved_30 exc_reserved_31 : Vector
  isr_pit_timer isr_keyboard isr_cascade isr_com2 : Vector
  isr_com1 isr_lpt2 isr_floppy_disk isr_lpt1 : Vector
  isr_rtc isr_peripheral_1 isr_peripheral_2 isr_peripheral_3 : Vector
  isr_mouse isr_fpu isr_primary_ata isr_secondary_ata : Vector

abbrev pub code : Vector → ℕ
code exc_divide_error = 0
code exc_debug = 1
code exc_nmi_interrupt = 2
code exc_breakpoint = 3
code exc_overflow = 4
code exc_bound_range_exceeded = 5
code exc_invalid_opcode = 6
code exc_device_not_available = 7
code exc_double_fault = 8
code exc_coprocessor_seg_overrun = 9
code exc_invalid_tss = 10
code exc_segment_not_present = 11
code exc_stack_segment_fault = 12
code exc_general_protection = 13
code exc_page_fault = 14
code exc_reserved_15 = 15
code exc_x87_fpu_error = 16
code exc_alignment_check = 17
code exc_machine_check = 18
code exc_simd_fp_exception = 19
code exc_virtualization = 20
code exc_control_protection = 21
code exc_reserved_22 = 22
code exc_reserved_23 = 23
code exc_reserved_24 = 24
code exc_reserved_25 = 25
code exc_reserved_26 = 26
code exc_reserved_27 = 27
code exc_reserved_28 = 28
code exc_reserved_29 = 29
code exc_reserved_30 = 30
code exc_reserved_31 = 31
code isr_pit_timer = 32
code isr_keyboard = 33
code isr_cascade = 34
code isr_com2 = 35
code isr_com1 = 36
code isr_lpt2 = 37
code isr_floppy_disk = 38
code isr_lpt1 = 39
code isr_rtc = 40
code isr_peripheral_1 = 41
code isr_peripheral_2 = 42
code isr_peripheral_3 = 43
code isr_mouse = 44
code isr_fpu = 45
code isr_primary_ata = 46
code isr_secondary_ata = 47
