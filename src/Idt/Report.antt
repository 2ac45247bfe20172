-- ===== src/Idt/Report.antt =====
-- kernel/src/idt.c: what the handler of exceptions reports on the serial line.
use tuna_os.Base.{
  ℕ, ◌%◌, ◌^◌, ◌<◌, ◌≡◌, refl, ◌&&◌, List, [], ◌∷◌, ◌++◌, Option, none, some, ◌==◌, if◌then◌else◌,
  ◌>>=◌, get_elem?,
}
use tuna_os.Strings.{codes}
use tuna_os.Serial.{
  serial_write, serial_write_dec_u64, serial_write_hex_u64, serial_write_dec_u64_lem, read_dec,
}
use tuna_os.Serial.Hex.{read_hex, serial_write_hex_u64_lem}
use tuna_os.Idt.{Frame}

abbrev pub exception_names : List (List ℕ)
exception_names =
    codes "Divide Error"
    ∷ codes "Debug"
    ∷ codes "NMI"
    ∷ codes "Breakpoint"
    ∷ codes "Overflow"
    ∷ codes "BOUND Range Exceeded"
    ∷ codes "Invalid Opcode"
    ∷ codes "Device Not Available"
    ∷ codes "Double Fault"
    ∷ codes "Coprocessor Segment Overrun"
    ∷ codes "Invalid TSS"
    ∷ codes "Segment Not Present"
    ∷ codes "Stack-Segment Fault"
    ∷ codes "General Protection Fault"
    ∷ codes "Page Fault"
    ∷ codes "Reserved"
    ∷ codes "x87 Floating-Point Exception"
    ∷ codes "Alignment Check"
    ∷ codes "Machine Check"
    ∷ codes "SIMD Floating-Point Exception"
    ∷ codes "Virtualization Exception"
    ∷ codes "Control Protection Exception"
    ∷ codes "Reserved"
    ∷ codes "Reserved"
    ∷ codes "Reserved"
    ∷ codes "Reserved"
    ∷ codes "Reserved"
    ∷ codes "Reserved"
    ∷ codes "Hypervisor Injection Exception"
    ∷ codes "VMM Communication Exception"
    ∷ codes "Security Exception"
    ∷ codes "Reserved"
    ∷ []

-- The name in brackets, for the vectors that the array has.
unfoldable pub exception_name : (vector : ℕ) → List ℕ
exception_name vector = elim (get_elem? exception_names vector) [
  | none ↦ []
  | some name ↦ serial_write (codes " (") ++ (serial_write name ++ serial_write (codes ")"))
]

-- The dash of the message, in UTF-8.
abbrev dash : List ℕ
dash = 226 ∷ 128 ∷ 148 ∷ []

-- The last lines, by what the handler does next.
unfoldable pub exception_end : Frame → List ℕ
exception_end frame =
    if frame.vector == 3
    then serial_write (codes "[exception] breakpoint handled, resuming.\n")
    else if (frame.vector == 13) && (frame.cs % 2 ^ 2 == 3)
    then serial_write (codes "[exception] GPF from ring 3 at rip=")
      ++ (serial_write_hex_u64 frame.rip
          ++ (serial_write (codes " " ++ (dash ++ codes " privilege enforcement confirmed\n"))
              ++ serial_write (codes "[exception] halting.\n")))
    else serial_write (codes "[exception] fatal exception, halting.\n")

-- What is sent; `none` is a number that does not fit its buffer.
unfoldable pub exception_report : Frame → Option (List ℕ)
exception_report frame = do
  vector ← serial_write_dec_u64 frame.vector
  some (
      serial_write (codes "\n[exception] vector=")
      ++ (vector
          ++ (exception_name frame.vector
              ++ (serial_write (codes " error=")
                  ++ (serial_write_hex_u64 frame.error_code
                      ++ (serial_write (codes " rip=")
                          ++ (serial_write_hex_u64 frame.rip
                              ++ (serial_write (codes "\n") ++ exception_end frame))))))))

-- The report of an exception is sent, and its numbers stand for the vector, in decimal, and the
-- error code and the address of the instruction, in hexadecimal.
pub exception_report_lem :
    (frame : Frame)
    → frame.vector < 2 ^ 64
    → frame.error_code < 2 ^ 64
    → frame.rip < 2 ^ 64
    → (vector error rip : List ℕ) × (exception_report frame
        ≡ some (
            serial_write (codes "\n[exception] vector=")
            ++ (vector
                ++ (exception_name frame.vector
                    ++ (serial_write (codes " error=")
                        ++ ((b'0' ∷ b'x' ∷ error)
                            ++ (serial_write (codes " rip=")
                                ++ ((b'0' ∷ b'x' ∷ rip)
                                    ++ (serial_write (codes "\n") ++ exception_end frame)))))))))
      × (read_dec 0 vector ≡ frame.vector)
      × (read_hex 0 error ≡ frame.error_code)
      × (read_hex 0 rip ≡ frame.rip)
unfolding exception_report
exception_report_lem frame small small' small'' =
    let (vector, run, reads) = serial_write_dec_u64_lem frame.vector small in
    let (error, sent, reads', _, _) = serial_write_hex_u64_lem frame.error_code small' in
    let (rip, sent', reads'', _, _) = serial_write_hex_u64_lem frame.rip small'' in
    (vector, error, rip, rw (run, sent, sent') refl, reads, reads', reads'')
