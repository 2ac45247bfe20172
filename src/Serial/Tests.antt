-- ===== src/Serial/Tests.antt =====
-- What the serial line's functions send.
use tuna_os.Base.{ℕ, ◌≡◌, refl, some, List, [], ◌∷◌, arith, length, ◌≤◌, take}
use tuna_os.Serial.Hex.{read_hex, serial_write_hex_u64_lem}
use tuna_os.Serial.Wait.{serial_write_chars, count_empty, serial_write_chars-take}
use tuna_os.Serial.{
  serial_write_dec_u64, serial_write_dec_u64_lem, serial_write_hex_u64, hex_loop, hex_digit,
  dec_loop, read_dec,
}

dec-run : serial_write_dec_u64 1048576 ≡ some (49 ∷ 48 ∷ 52 ∷ 56 ∷ 53 ∷ 55 ∷ 54 ∷ [])
unfolding serial_write_dec_u64 dec_loop
dec-run = refl

hex-run : serial_write_hex_u64 0x2af ≡ 48 ∷ 120 ∷ 50 ∷ 65 ∷ 70 ∷ []
unfolding serial_write_hex_u64 hex_loop hex_digit
hex-run = refl

serial_write_dec_u64_lem_example :
    (out : List ℕ) × (serial_write_dec_u64 1048576 ≡ some out) × (read_dec 0 out ≡ 1048576)
serial_write_dec_u64_lem_example = serial_write_dec_u64_lem 1048576 (omega arith)

serial_write_hex_u64_lem_example :
    (out : List ℕ) × (serial_write_hex_u64 0x2af ≡ 48 ∷ 120 ∷ out)
    × (read_hex 0 out ≡ 0x2af)
    × (1 ≤ length out)
    × (length out ≤ 16)
serial_write_hex_u64_lem_example = serial_write_hex_u64_lem 0x2af (omega arith)

serial_write_chars-take_example :
    serial_write_chars (104 ∷ 105 ∷ 33 ∷ []) (0 ∷ 0x60 ∷ 0 ∷ 0x20 ∷ [])
    ≡ take (count_empty (0 ∷ 0x60 ∷ 0 ∷ 0x20 ∷ [])) (104 ∷ 105 ∷ 33 ∷ [])
serial_write_chars-take_example =
    serial_write_chars-take (104 ∷ 105 ∷ 33 ∷ []) (0 ∷ 0x60 ∷ 0 ∷ 0x20 ∷ [])
