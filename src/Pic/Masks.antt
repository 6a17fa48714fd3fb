-- ===== src/Pic/Masks.antt =====
-- Which interrupts the masks let through.
use paradox_os.Base.{
  Bool, Bool-cases, ap, arith, false, if◌then◌else◌, inl, inr, ltb, ltb→le, ltb→lt, refl, true, ℕ,
  ◌-◌, ◌<◌, ◌==◌, ◌∙◌, ◌≡◌,
}
use paradox_os.Base.Bits.{test_bit, set_bit-lt, clear_bit-lt, test_bit-set_bit, test_bit-clear_bit}
use paradox_os.Pic.{Pic, outb, write_mask, pic_set_mask, pic_clear_mask}

-- The mask registers are bytes.
pub record IsValid (s : Pic) : Type 0 where
  pub byte1 : s.mask1 < 256
  pub byte2 : s.mask2 < 256

-- The interrupt line is held back.
abbrev pub masked : Pic → ℕ → Bool
masked s irq = if ltb irq 8 then test_bit s.mask1 irq else test_bit s.mask2 (irq - 8)

-- Masking one of the 16 interrupts holds back that one, and changes no other.
pub pic_set_mask-masked :
    {s : Pic} (irq other : ℕ)
    → IsValid s
    → irq < 16
    → other < 16
    → (masked (pic_set_mask s irq) other ≡ (if irq == other then true else masked s other))
      × IsValid (pic_set_mask s irq)
unfolding pic_set_mask outb write_mask
pic_set_mask-masked {s} irq other v hi ho = elim (Bool-cases (ltb irq 8)) [
  | inl low ↦
      let i = ltb→lt _ _ low in
      rw low (
        elim (Bool-cases (ltb other 8)) [
          | inl e ↦ rw e (test_bit-set_bit s.mask1 irq v.byte1 i other (ltb→lt _ _ e))
          | inr e ↦ let apart : (irq == other) ≡ false = ground arith in rw (e, apart) refl
        ],
        record { byte1 = set_bit-lt s.mask1 irq v.byte1 i; byte2 = v.byte2 },
      )
  | inr high ↦
      let i : irq - 8 < 8 = omega arith in
      let h = ltb→le _ _ high in
      rw high (
        elim (Bool-cases (ltb other 8)) [
          | inl e ↦ let apart : (irq == other) ≡ false = ground arith in rw (e, apart) refl
          | inr e ↦
              let same : (irq - 8 == other - 8) ≡ (irq == other) = ground arith in
              rw e (
                test_bit-set_bit s.mask2 (irq - 8) v.byte2 i (other - 8) (ground arith)
                ∙ ap (λ b. if b then true else test_bit s.mask2 (other - 8)) same)
        ],
        record { byte1 = v.byte1; byte2 = set_bit-lt s.mask2 (irq - 8) v.byte2 i },
      )
]

-- Unmasking one of the 16 interrupts lets that one through, and changes no other.
pub pic_clear_mask-masked :
    {s : Pic} (irq other : ℕ)
    → IsValid s
    → irq < 16
    → other < 16
    → (masked (pic_clear_mask s irq) other ≡ (if irq == other then false else masked s other))
      × IsValid (pic_clear_mask s irq)
unfolding pic_clear_mask outb write_mask
pic_clear_mask-masked {s} irq other v hi ho = elim (Bool-cases (ltb irq 8)) [
  | inl low ↦
      let i = ltb→lt _ _ low in
      rw low (
        elim (Bool-cases (ltb other 8)) [
          | inl e ↦ rw e (test_bit-clear_bit s.mask1 irq v.byte1 i other (ltb→lt _ _ e))
          | inr e ↦ let apart : (irq == other) ≡ false = ground arith in rw (e, apart) refl
        ],
        record { byte1 = clear_bit-lt s.mask1 irq v.byte1 i; byte2 = v.byte2 },
      )
  | inr high ↦
      let i : irq - 8 < 8 = omega arith in
      let h = ltb→le _ _ high in
      rw high (
        elim (Bool-cases (ltb other 8)) [
          | inl e ↦ let apart : (irq == other) ≡ false = ground arith in rw (e, apart) refl
          | inr e ↦
              let same : (irq - 8 == other - 8) ≡ (irq == other) = ground arith in
              rw e (
                test_bit-clear_bit s.mask2 (irq - 8) v.byte2 i (other - 8) (ground arith)
                ∙ ap (λ b. if b then false else test_bit s.mask2 (other - 8)) same)
        ],
        record { byte1 = v.byte1; byte2 = clear_bit-lt s.mask2 (irq - 8) v.byte2 i },
      )
]
