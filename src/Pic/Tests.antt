-- ===== src/Pic/Tests.antt =====
-- Concrete masks.
use paradox_os.Base.{[], arith}
use paradox_os.Pic.{Pic}
use paradox_os.Pic.Masks.{IsValid}

abbrev all_masked : Pic
all_masked = record { mask1 = 255; mask2 = 255; out = [] }

all_masked-IsValid : IsValid all_masked
all_masked-IsValid = record { byte1 = omega arith; byte2 = omega arith }
