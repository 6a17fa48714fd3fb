-- ===== src/Pci/Tests.antt =====
-- Concrete addresses and scans.
use paradox_os.Base.{[], if◌then◌else◌, refl, take, ℕ, ◌==◌, ◌^◌, ◌≡◌}
use paradox_os.Pci.{Config, pci_scan_function, pci_get_device_count}
use paradox_os.Pci.Scan.{all_functions, pci_scan_bus_lem}
use paradox_os.Pci.{pci_scan_bus, max_pci_devices}

-- The bridge at bus 0, device 0 of a common machine, and nothing else.
abbrev bridge : Config
bridge a = if a == 2 ^ 31 then 0x12378086 else 0xFFFFFFFF

one_found :
    pci_get_device_count (pci_scan_function bridge 0 1 0 (pci_scan_function bridge 0 0 0 [])) ≡ 1
unfolding pci_scan_function pci_get_device_count
one_found = refl

abbrev bus : ℕ
bus = 1

abbrev device : ℕ
device = 2

abbrev function : ℕ
function = 3

abbrev offset : ℕ
offset = 0x11

pci_scan_bus_lem_example : pci_scan_bus bridge ≡ take max_pci_devices (all_functions bridge)
pci_scan_bus_lem_example = pci_scan_bus_lem bridge
