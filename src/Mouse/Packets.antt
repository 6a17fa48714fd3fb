-- ===== src/Mouse/Packets.antt =====
-- No press or release of a button is lost between two looks at the mouse.
use paradox_os.Base.{
  All, Bool, List, [], ap, arith, false, ltb, not, refl, true, ℕ, ◌&&◌, ◌<◌, ◌||◌, ◌∙◌, ◌∷◌, ◌≡◌,
}
use paradox_os.Base.Bits.{test_bit, all_below, all_below_lem}
use Prim.Native.Nat.{bit_or}
use paradox_os.Mouse.{Mouse, without, take_buttons, mouse_consume_event}

abbrev bool_eq : Bool → Bool → Bool
bool_eq true b = b
bool_eq false b = not b

bool_eq→eq : (a b : Bool) → bool_eq a b ≡ true → a ≡ b
bool_eq→eq a b h = ground arith

abbrev mask_laws : ℕ → ℕ → ℕ → Bool
mask_laws a b k =
    bool_eq (test_bit (bit_or a b) k) (test_bit a k || test_bit b k)
    && (bool_eq (test_bit (without a b) k) (test_bit a k && not (test_bit b k))
        && (ltb (bit_or a b) 8 && ltb (without a b) 8))

mask_table : all_below 8 (λ a. all_below 8 (λ b. all_below 3 (λ k. mask_laws a b k))) ≡ true
unfolding all_below test_bit
mask_table = refl

-- The masks of three buttons.
module _ (a b k : ℕ) (ha : a < 8) (hb : b < 8) (hk : k < 3) where
  masks_at : mask_laws a b k ≡ true
  masks_at = all_below_lem _ hk (all_below_lem _ hb (all_below_lem _ ha mask_table))

  test_bit-bit_or : test_bit (bit_or a b) k ≡ (test_bit a k || test_bit b k)
  test_bit-bit_or = ground (arith, masks_at)

  test_bit-without : test_bit (without a b) k ≡ (test_bit a k && not (test_bit b k))
  test_bit-without = ground (arith, masks_at)

  bit_or-lt : bit_or a b < 8
  bit_or-lt = ground (arith, masks_at)

  without-lt : without a b < 8
  without-lt = ground (arith, masks_at)

-- The masks of the driver are those of the three buttons.
pub record HasMasks (s : Mouse) : Type 0 where
  pub prev : s.irq_prev_buttons < 8
  pub pressed : s.pending_pressed < 8
  pub released : s.pending_released < 8

-- Button `k` goes down, or up, somewhere in the states of the buttons that follow `prev`.
abbrev pub goes_down : ℕ → ℕ → List ℕ → Bool
goes_down k prev [] = false
goes_down k prev (b ∷ bs) = (test_bit b k && not (test_bit prev k)) || goes_down k b bs

abbrev pub goes_up : ℕ → ℕ → List ℕ → Bool
goes_up k prev [] = false
goes_up k prev (b ∷ bs) = (test_bit prev k && not (test_bit b k)) || goes_up k b bs

-- The packets of several interrupts in a row, by their buttons.
unfoldable pub take_all : Mouse → List ℕ → Mouse
take_all s [] = s
take_all s (b ∷ bs) = take_all (take_buttons s b) bs

take_buttons-HasMasks : {s : Mouse} (b : ℕ) → b < 8 → HasMasks s → HasMasks (take_buttons s b)
unfolding take_buttons
take_buttons-HasMasks {s} b hb m = record {
  prev = hb;
  pressed =
      bit_or-lt s.pending_pressed (without b s.irq_prev_buttons) 0 m.pressed
        (without-lt b s.irq_prev_buttons 0 hb m.prev (omega arith)) (omega arith);
  released =
      bit_or-lt s.pending_released (without s.irq_prev_buttons b) 0 m.released
        (without-lt s.irq_prev_buttons b 0 m.prev hb (omega arith)) (omega arith);
}

-- One packet adds its own edges.
module _ (s : Mouse) (b k : ℕ) (hb : b < 8) (hk : k < 3) (m : HasMasks s) where
  pressed-take_buttons :
      test_bit (take_buttons s b).pending_pressed k
      ≡ (test_bit s.pending_pressed k || (test_bit b k && not (test_bit s.irq_prev_buttons k)))
  unfolding take_buttons
  pressed-take_buttons =
      test_bit-bit_or s.pending_pressed (without b s.irq_prev_buttons) k m.pressed
        (without-lt b s.irq_prev_buttons k hb m.prev hk) hk
      ∙ ap (λ e. test_bit s.pending_pressed k || e)
          (test_bit-without b s.irq_prev_buttons k hb m.prev hk)

  released-take_buttons :
      test_bit (take_buttons s b).pending_released k
      ≡ (test_bit s.pending_released k || (test_bit s.irq_prev_buttons k && not (test_bit b k)))
  unfolding take_buttons
  released-take_buttons =
      test_bit-bit_or s.pending_released (without s.irq_prev_buttons b) k m.released
        (without-lt s.irq_prev_buttons b k m.prev hb hk) hk
      ∙ ap (λ e. test_bit s.pending_released k || e)
          (test_bit-without s.irq_prev_buttons b k m.prev hb hk)

  prev-take_buttons : (take_buttons s b).irq_prev_buttons ≡ b
  unfolding take_buttons
  prev-take_buttons = refl

or_assoc : (a b c : Bool) → ((a || b) || c) ≡ (a || (b || c))
or_assoc a b c = ground arith

-- After any packets, the next event reports a button as pressed exactly if it was pressed before or
-- went down in one of them, and as released exactly if it was released before or went up in one: also
-- a click that begins and ends between two looks is seen.
pub mouse_consume_event-edges :
    (k : ℕ) (s : Mouse) (bs : List ℕ)
    → k < 3
    → All (λ b. b < 8) bs
    → HasMasks s
    → (test_bit (mouse_consume_event (take_all s bs)).0.pressed k
        ≡ (test_bit s.pending_pressed k || goes_down k s.irq_prev_buttons bs))
      × (test_bit (mouse_consume_event (take_all s bs)).0.released k
          ≡ (test_bit s.pending_released k || goes_up k s.irq_prev_buttons bs))
unfolding mouse_consume_event take_all
mouse_consume_event-edges k s [] hk all m = (ground arith, ground arith)
mouse_consume_event-edges k s (b ∷ bs) hk all m =
    let ih =
      mouse_consume_event-edges k (take_buttons s b) bs hk all.1
        (take_buttons-HasMasks b all.0 m) in
    let same = prev-take_buttons s b k all.0 hk m in
    (
      ih.0
          ∙ rw (pressed-take_buttons s b k all.0 hk m, same)
              (or_assoc (test_bit s.pending_pressed k)
                (test_bit b k && not (test_bit s.irq_prev_buttons k)) (goes_down k b bs)),
      ih.1
          ∙ rw (released-take_buttons s b k all.0 hk m, same)
              (or_assoc (test_bit s.pending_released k)
                (test_bit s.irq_prev_buttons k && not (test_bit b k)) (goes_up k b bs)),
    )
