-- ===== src/Idt/Gates.antt =====
-- kernel/src/idt.c: what the processor finds in the interrupt table.
use tuna_os.Base.{
  ℕ, zero, suc, ◌+◌, ◌*◌, ◌/◌, ◌%◌, ◌^◌, ◌<◌, ◌≤◌, ◌≡◌, ◌≢◌, refl, ◌⊎◌, inl, inr, arith, true,
  false, not, Bool, ◌==◌, ltb, Bool-cases, update, u8, ◌∙◌,
}
use tuna_os.Idt.{Gate, Idt, empty_gate, idt_set_gate, clear_gates, set_stubs, idt_init}

-- The address that the processor takes from a gate, its present bit, and the least privileged
-- ring that may call it with an instruction.
abbrev pub gate_address : Gate → ℕ
gate_address g = g.offset_low + g.offset_mid * 2 ^ 16 + g.offset_high * 2 ^ 32

abbrev pub is_active : Gate → Bool
is_active g = not (g.type_attr / 2 ^ 7 % 2 == 0)

abbrev pub gate_ring : Gate → ℕ
gate_ring g = g.type_attr / 2 ^ 5 % 2 ^ 2

-- The processor enters the handler at `address`, for an instruction from `ring` or a more
-- privileged one.
pub record IsActive (g : Gate) (address ring : ℕ) : Type 0 where
  pub active : is_active g ≡ true
  pub leads : gate_address g ≡ address
  pub kernel_code : g.selector ≡ 0x08
  pub callable : gate_ring g ≡ ring

abbrev gate_to : (address type_attr : ℕ) → Gate
gate_to address type_attr = idt_set_gate 0 address type_attr (λ _. empty_gate) 0

set_gate-update :
    (vector address type_attr : ℕ) (gates : ℕ → Gate)
    → idt_set_gate vector address type_attr gates ≡ update gates vector (gate_to address type_attr)
unfolding idt_set_gate
set_gate-update vector address type_attr gates = refl

gate_to-IsActive :
    (address : ℕ)
    → address < 2 ^ 64
    → IsActive (gate_to address 0x8e) address 0 × IsActive (gate_to address 0xef) address 3
unfolding idt_set_gate
gate_to-IsActive address h = (
  record { active = refl; leads = omega arith; kernel_code = refl; callable = refl },
  record { active = refl; leads = omega arith; kernel_code = refl; callable = refl },
)

clear_gates-outside :
    (rounds i : ℕ) (gates : ℕ → Gate) (v : ℕ)
    → (v < i) ⊎ (i + rounds ≤ v)
    → clear_gates rounds i gates v ≡ gates v
unfolding clear_gates
clear_gates-outside zero i gates v h = refl
clear_gates-outside (suc rounds) i gates v h =
    clear_gates-outside rounds (i + 1) (update gates i empty_gate) v (ground arith) ∙ ground arith

clear_gates-inside :
    (rounds i : ℕ) (gates : ℕ → Gate) (v : ℕ)
    → i ≤ v
    → v < i + rounds
    → clear_gates rounds i gates v ≡ empty_gate
unfolding clear_gates
clear_gates-inside zero i gates v lo hi = absurd (omega arith)
clear_gates-inside (suc rounds) i gates v lo hi = elim (Bool-cases (i == v)) [
  | inl at ↦
      clear_gates-outside rounds (i + 1) (update gates i empty_gate) v (inl (ground arith))
      ∙ rw at refl
  | inr other ↦
      clear_gates-inside rounds (i + 1) (update gates i empty_gate) v (ground arith) (omega arith)
]

set_stubs-outside :
    (rounds : ℕ) (stubs : ℕ → ℕ) (i : ℕ) (gates : ℕ → Gate) (v : ℕ)
    → i + rounds ≤ 256
    → (v < i) ⊎ (i + rounds ≤ v)
    → set_stubs rounds stubs i gates v ≡ gates v
unfolding set_stubs
set_stubs-outside zero stubs i gates v small h = refl
set_stubs-outside (suc rounds) stubs i gates v small h =
    let byte : u8 i ≡ i = omega arith in
    let other : (i == v) ≡ false = ground arith in
    set_stubs-outside rounds stubs (i + 1) _ v (omega arith) (ground arith)
    ∙ rw (byte, set_gate-update i (stubs i) 0x8e gates, other) refl

set_stubs-inside :
    (rounds : ℕ) (stubs : ℕ → ℕ) (i : ℕ) (gates : ℕ → Gate) (v : ℕ)
    → i + rounds ≤ 256
    → i ≤ v
    → v < i + rounds
    → set_stubs rounds stubs i gates v ≡ gate_to (stubs v) 0x8e
unfolding set_stubs
set_stubs-inside zero stubs i gates v small lo hi = absurd (omega arith)
set_stubs-inside (suc rounds) stubs i gates v small lo hi = elim (Bool-cases (i == v)) [
  | inl at ↦
      let byte : u8 i ≡ i = omega arith in
      let same : i ≡ v = ground arith in
      set_stubs-outside rounds stubs (i + 1) _ v (omega arith) (inl (omega arith))
      ∙ rw (byte, set_gate-update i (stubs i) 0x8e gates, at, same) refl
  | inr other ↦ set_stubs-inside rounds stubs (i + 1) _ v (omega arith) (ground arith) (omega arith)
]

-- After `idt_init` the processor enters the stub of each of the vectors 0 to 47, from which ring 3
-- is kept out, and the stub of system calls at vector 128, which ring 3 may call; no other of the
-- 256 gates is active.
pub idt_init_lem :
    (base : ℕ) (stubs : ℕ → ℕ) (syscall_stub : ℕ) (s : Idt) (v : ℕ)
    → ((i : ℕ) → stubs i < 2 ^ 64)
    → syscall_stub < 2 ^ 64
    → v < 256
    → let g = (idt_init base stubs syscall_stub s).gates v in
      ((v < 48) × IsActive g (stubs v) 0)
      ⊎ ((v ≡ 128) × IsActive g syscall_stub 3)
      ⊎ ((48 ≤ v) × (v ≢ 128) × (is_active g ≡ false))
unfolding idt_init
idt_init_lem base stubs syscall_stub s v small small' hi =
    rw (set_gate-update 128 syscall_stub 0xef (set_stubs 48 stubs 0 (clear_gates 256 0 s.gates)))
      (elim (Bool-cases (128 == v)) [
        | inl at ↦ rw at (inr (inl (ground arith, (gate_to-IsActive syscall_stub small').1)))
        | inr other ↦ rw other (elim (Bool-cases (ltb v 48)) [
          | inl stub ↦
              rw
                (set_stubs-inside 48 stubs 0 (clear_gates 256 0 s.gates) v (omega arith)
                  (omega arith) (ground arith))
                (inl (ground arith, (gate_to-IsActive (stubs v) (small v)).0))
          | inr none_there ↦
              rw
                (
                  set_stubs-outside 48 stubs 0 (clear_gates 256 0 s.gates) v (omega arith)
                      (inr (ground arith)),
                  clear_gates-inside 256 0 s.gates v (omega arith) (omega arith),
                )
                (inr (inr (ground arith, ground arith, refl)))
        ])
      ])
