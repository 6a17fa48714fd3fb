-- ===== src/Pci/Address.antt =====
-- The address of a register tells the registers apart.
use paradox_os.Base.{arith, ℕ, ◌/◌, ◌<◌, ◌≡◌}
use paradox_os.Pci.{config_address}

-- Two addresses with fields in range are the same only for the same bus, device and function, and
-- for offsets in the same register of four bytes.
pub config_address-apart :
    (b d f o b' d' f' o' : ℕ)
    → d < 32
    → f < 8
    → o < 256
    → d' < 32
    → f' < 8
    → o' < 256
    → config_address b d f o ≡ config_address b' d' f' o'
    → (b ≡ b') × (d ≡ d') × (f ≡ f') × (o / 4 ≡ o' / 4)
config_address-apart b d f o b' d' f' o' hd hf ho hd' hf' ho' e =
    (omega arith, omega arith, omega arith, omega arith)
