-- ===== src/Pci.antt =====
-- The enumeration of the PCI bus, src/kernel/pci.cpp. `Config` stands for the devices behind the two
-- ports: the register that a read of the data port gives for each address written before it.
pub mod Address
pub mod Scan
mod Tests
use paradox_os.Base.{
  Bool, List, Option, [], for_range, get_elem?, if◌then◌else◌, leb, length, none, not, ℕ, ◌%◌, ◌*◌,
  ◌++◌, ◌+◌, ◌/◌, ◌==◌, ◌^◌, ◌∷◌,
}
use Prim.Native.Nat.{bit_and}

abbrev pub Config : Type 0
Config = ℕ → ℕ

abbrev pub max_pci_devices : ℕ
max_pci_devices = 64

-- The fields stand in bits of their own, so they are added.
abbrev pub config_address : ℕ → ℕ → ℕ → ℕ → ℕ
config_address bus device function offset =
    2 ^ 31 + bus * 2 ^ 16 + device * 2 ^ 11 + function * 2 ^ 8 + offset / 4 * 4

abbrev pub pci_read_config : Config → ℕ → ℕ → ℕ → ℕ → ℕ
pci_read_config config bus device function offset =
    config (config_address bus device function offset)

abbrev pub pci_read_vendor_id : Config → ℕ → ℕ → ℕ → ℕ
pci_read_vendor_id config bus device function =
    pci_read_config config bus device function 0 % 2 ^ 16

pub record PciDevice : Type 0 where
  pub bus : ℕ
  pub device : ℕ
  pub function : ℕ
  pub vendor_id : ℕ
  pub device_id : ℕ
  pub class_code : ℕ
  pub subclass : ℕ
  pub prog_if : ℕ
  pub revision : ℕ
  pub header_type : ℕ
  pub bar : List ℕ
  pub interrupt_line : ℕ
  pub interrupt_pin : ℕ

-- What is read for a function that is there.
pub read_device : Config → ℕ → ℕ → ℕ → PciDevice
read_device config bus device function =
    let device_vendor = pci_read_config config bus device function 0 in
    let class_info = pci_read_config config bus device function 0x08 in
    let header_info = pci_read_config config bus device function 0x0C in
    let interrupt_info = pci_read_config config bus device function 0x3C in
    record {
      bus = bus;
      device = device;
      function = function;
      vendor_id = pci_read_vendor_id config bus device function;
      device_id = device_vendor / 2 ^ 16 % 2 ^ 16;
      class_code = class_info / 2 ^ 24 % 256;
      subclass = class_info / 2 ^ 16 % 256;
      prog_if = class_info / 2 ^ 8 % 256;
      revision = class_info % 256;
      header_type = header_info / 2 ^ 16 % 256;
      bar =
          pci_read_config config bus device function 0x10
          ∷ (pci_read_config config bus device function 0x14
              ∷ (pci_read_config config bus device function 0x18
                  ∷ (pci_read_config config bus device function 0x1C
                      ∷ (pci_read_config config bus device function 0x20
                          ∷ (pci_read_config config bus device function 0x24 ∷ [])))));
      interrupt_line = interrupt_info % 256;
      interrupt_pin = interrupt_info / 256 % 256;
    }

-- The devices found, the last one last; their number is `pci_device_count`.
unfoldable pub pci_scan_function : Config → ℕ → ℕ → ℕ → List PciDevice → List PciDevice
pci_scan_function config bus device function devices =
    if pci_read_vendor_id config bus device function == 0xFFFF
    then devices
    else if leb max_pci_devices (length devices)
    then devices
    else devices ++ (read_device config bus device function ∷ [])

abbrev pub multi_function : Config → ℕ → ℕ → Bool
multi_function config bus device =
    not (bit_and (pci_read_config config bus device 0 0x0C / 2 ^ 16 % 256) 0x80 == 0)

-- The functions 1 to 7.
unfoldable pub scan_functions : Config → ℕ → ℕ → List PciDevice → List PciDevice
scan_functions config bus device = for_range 7 1 (λ function found.
    if not (pci_read_vendor_id config bus device function == 0xFFFF)
    then pci_scan_function config bus device function found
    else found)

unfoldable pub scan_device : Config → ℕ → ℕ → List PciDevice → List PciDevice
scan_device config bus device devices =
    if pci_read_vendor_id config bus device 0 == 0xFFFF
    then devices
    else let first = pci_scan_function config bus device 0 devices in
      if multi_function config bus device then scan_functions config bus device first else first

unfoldable pub pci_scan_bus : Config → List PciDevice
pci_scan_bus config =
    for_range 256 0 (λ bus. for_range 32 0 (λ device. scan_device config bus device)) []

pub pci_get_device_count : List PciDevice → ℕ
pci_get_device_count devices = length devices

pub pci_get_device : List PciDevice → ℕ → Option PciDevice
pci_get_device devices index = if leb (length devices) index then none else get_elem? devices index
