-- ===== src/Pci/Scan.antt =====
-- What the scan records.
use paradox_os.Base.{
  Bool, Bool-cases, List, [], ap, arith, false, for_range, if◌then◌else◌, inl, inr, leb, length,
  length-append, length-take, not, refl, suc, sym, take, true, zero, ℕ, ◌++◌, ◌+◌, ◌<◌, ◌==◌, ◌∙◌,
  ◌∷◌, ◌≡◌, ◌≤◌,
}
use mathlib.Core.List.{append_assoc, append-nil}
use paradox_os.Pci.{
  Config, PciDevice, max_pci_devices, pci_read_vendor_id, read_device, pci_scan_function,
  scan_functions, scan_device, multi_function, pci_scan_bus,
}

-- The record of one function, if it is there.
abbrev found : Config → ℕ → ℕ → ℕ → List PciDevice
found config bus device function =
    if pci_read_vendor_id config bus device function == 0xFFFF
    then []
    else read_device config bus device function ∷ []

-- The records of all rounds of a counted loop, in order.
unfoldable pub gather : ℕ → ℕ → (ℕ → List PciDevice) → List PciDevice
gather zero i f = []
gather (suc n) i f = f i ++ gather n (i + 1) f

abbrev pub device_functions : Config → ℕ → ℕ → List PciDevice
device_functions config bus device =
    if pci_read_vendor_id config bus device 0 == 0xFFFF
    then []
    else found config bus device 0
      ++ (if multi_function config bus device then gather 7 1 (found config bus device) else [])

abbrev pub all_functions : Config → List PciDevice
all_functions config =
    gather 256 0 (λ bus. gather 32 0 (λ device. device_functions config bus device))

take-append : (n : ℕ) (xs ys : List PciDevice) → n ≤ length xs → take n (xs ++ ys) ≡ take n xs
take-append zero xs ys h = refl
take-append (suc n) [] ys h = absurd (omega arith)
take-append (suc n) (x ∷ xs) ys h = ap (λ r. x ∷ r) (take-append n xs ys (omega arith))

take-short : (n : ℕ) (xs : List PciDevice) → length xs ≤ n → take n xs ≡ xs
take-short zero [] h = refl
take-short zero (x ∷ xs) h = absurd (omega arith)
take-short (suc n) [] h = refl
take-short (suc n) (x ∷ xs) h = ap (λ r. x ∷ r) (take-short n xs (omega arith))

-- An operation that appends `new` to the devices, as far as the limit admits.
Extends : (List PciDevice → List PciDevice) → List PciDevice → Type 0
Extends op new =
    (old : List PciDevice) → op (take max_pci_devices old) ≡ take max_pci_devices (old ++ new)

Extends-none : Extends (λ xs. xs) []
unfolding Extends
Extends-none old = ap (take max_pci_devices) (sym (append-nil old))

Extends-then :
    (op next : List PciDevice → List PciDevice) (new more : List PciDevice)
    → Extends op new
    → Extends next more
    → Extends (λ xs. next (op xs)) (new ++ more)
unfolding Extends
Extends-then op next new more first second old =
    ap next (first old)
    ∙ second (old ++ new)
    ∙ ap (take max_pci_devices) (append_assoc old new more)

Extends-for_range :
    (n i : ℕ) (op : ℕ → List PciDevice → List PciDevice) (new : ℕ → List PciDevice)
    → ((k : ℕ) → Extends (op k) (new k))
    → Extends (for_range n i op) (gather n i new)
unfolding for_range gather
Extends-for_range zero i op new each = Extends-none
Extends-for_range (suc n) i op new each =
    Extends-then _ _ _ _ (each i) (Extends-for_range n (i + 1) op new each)

Extends-when :
    (b : Bool) (op : List PciDevice → List PciDevice) (new : List PciDevice)
    → Extends op new
    → Extends (λ xs. if b then op xs else xs) (if b then new else [])
Extends-when true op new e = e
Extends-when false op new e = Extends-none

Extends-unless :
    (b : Bool) (op : List PciDevice → List PciDevice) (new : List PciDevice)
    → Extends op new
    → Extends (λ xs. if b then xs else op xs) (if b then [] else new)
Extends-unless true op new e = Extends-none
Extends-unless false op new e = e

-- A test in front of an operation that appends nothing where the test fails.
Extends-guarded :
    (b : Bool) (op : List PciDevice → List PciDevice) (new : List PciDevice)
    → (b ≡ true → new ≡ [])
    → Extends op new
    → Extends (λ xs. if not b then op xs else xs) new
Extends-guarded true op new none_new e = rw (none_new refl) Extends-none
Extends-guarded false op new none_new e = e

module _ (config : Config) (bus device : ℕ) where
  Extends-pci_scan_function :
      (function : ℕ)
      → Extends (pci_scan_function config bus device function) (found config bus device function)
  unfolding Extends pci_scan_function
  Extends-pci_scan_function function old =
      elim (Bool-cases (pci_read_vendor_id config bus device function == 0xFFFF)) [
        | inl gone ↦ rw gone (Extends-none old)
        | inr there ↦ elim (Bool-cases (leb max_pci_devices (length (take max_pci_devices old)))) [
          | inl full ↦
              let long : max_pci_devices ≤ length old =
                ground (arith, length-take max_pci_devices old) in
              rw (there, full)
                (sym (
                  take-append max_pci_devices old (read_device config bus device function ∷ [])
                    long))
          | inr room ↦
              let short : length old < max_pci_devices =
                ground (arith, length-take max_pci_devices old) in
              let all : take max_pci_devices old ≡ old =
                take-short max_pci_devices old (omega arith) in
              rw (there, room)
                (ap (λ xs. xs ++ (read_device config bus device function ∷ [])) all
                  ∙ sym (
                      take-short max_pci_devices _ (
                        omega (
                          arith,
                          length-append old (read_device config bus device function ∷ []),
                        ))))
        ]
      ]

  Extends-scan_functions :
      Extends (scan_functions config bus device) (gather 7 1 (found config bus device))
  unfolding scan_functions
  Extends-scan_functions = Extends-for_range 7 1 _ (found config bus device) (λ function.
      Extends-guarded (pci_read_vendor_id config bus device function == 0xFFFF) _ _
        (λ gone. rw gone refl) (Extends-pci_scan_function function))

  Extends-scan_device : Extends (scan_device config bus device) (device_functions config bus device)
  unfolding scan_device
  Extends-scan_device = Extends-unless (pci_read_vendor_id config bus device 0 == 0xFFFF) _ _ (
      Extends-then _
        (λ first.
          if multi_function config bus device
          then scan_functions config bus device first
          else first)
        _ _ (Extends-pci_scan_function 0)
        (Extends-when (multi_function config bus device) _ _ Extends-scan_functions))

-- The scan records exactly the functions that are there, in the order of their buses, devices and
-- numbers, each with what was read for it; behind the limit of 64 devices, the rest is dropped.
pub pci_scan_bus_lem :
    (config : Config) → pci_scan_bus config ≡ take max_pci_devices (all_functions config)
unfolding Extends pci_scan_bus
pci_scan_bus_lem config =
    Extends-for_range 256 0 _ _
      (λ bus. Extends-for_range 32 0 _ _ (λ device. Extends-scan_device config bus device)) []
