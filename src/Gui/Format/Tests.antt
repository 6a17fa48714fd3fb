-- ===== src/Gui/Format/Tests.antt =====
-- Concrete numbers.
use paradox_os.Base.{refl, ◌*◌, ◌+◌, ◌<◌, ◌≡◌, ◌≤◌}
use paradox_os.Base.Int.{pos}
use paradox_os.Base.Text.{codes}
use paradox_os.Gui.Calculator.{digits, magnitude}
use paradox_os.Gui.Format.{fmt_u64, fmt_hex, hex_digits, cat, isqrt32, isqrt_loop}
use paradox_os.Gui.Format.Roots.{isqrt_loop_lem}

uptime : fmt_u64 24 3600 ≡ codes "3600"
unfolding fmt_u64 magnitude digits
uptime = refl

class_code : fmt_hex 12 0xbeef 4 ≡ codes "0xBEEF"
unfolding fmt_hex hex_digits
class_code = refl

cut : cat (codes "Free") 7 (codes " KB") ≡ codes "Free K"
unfolding cat
cut = refl

root_of_50 :
    (isqrt_loop (3 + 50) 50 0 * isqrt_loop (3 + 50) 50 0 ≤ 50)
    × (50 < (isqrt_loop (3 + 50) 50 0 + 1) * (isqrt_loop (3 + 50) 50 0 + 1))
    × (isqrt_loop (3 + 50) 50 0 ≡ isqrt32 (pos 50))
root_of_50 = isqrt_loop_lem 3 50
