-- ===== src/Pci/Enumerate/Tests.antt =====
-- A host bridge, and behind it a PCI bridge to bus 9, which has no devices.
use java_script_os.Base.{ℕ, ◌≡◌, refl, false, none, some, List, ltb, ◌==◌, if◌then◌else◌}
use java_script_os.Pci.Address.{address, pci_config_address}
use java_script_os.Pci.Register.{proxy_read}
use java_script_os.Pci.HostController.{
  Device, Visited, register, is_multi_function, attached_devices,
}
use java_script_os.Pci.Enumerate.{enumerate_all_pci_buses}
use java_script_os.Pci.Enumerate.Agree.{is_wide}
use java_script_os.Pci.Enumerate.Equivalence.{standard, enumerate_all_pci_buses-attached_devices}

abbrev config : ℕ → ℕ
config a =
    if a == 0x80000000
    then 0x12378086
    else if a == 0x80000800
    then 0x12378086
    else if a == 0x80000808
    then 0x06040000
    else if a == 0x80000818
    then 0x00000900
    else if ltb a 0x80001000
    then 0
    else 0xffffffff

abbrev unmarked : Visited
unmarked b = false

single : is_multi_function config 0 0 0 ≡ false
unfolding is_multi_function register proxy_read address
single = refl

narrow : is_wide unmarked ≡ false
unfolding is_wide
narrow = refl

enumerate_all_pci_buses-attached_devices_example :
    (r : List Device × Visited) × (attached_devices config 257 unmarked ≡ some r)
    × (enumerate_all_pci_buses standard config 257 unmarked
        ≡ (if is_wide r.1 then none else some r))
enumerate_all_pci_buses-attached_devices_example =
    enumerate_all_pci_buses-attached_devices config unmarked single narrow

-- Bus 9 is out of the C array.
out_of_array : enumerate_all_pci_buses standard config 3 unmarked ≡ none
unfolding enumerate_all_pci_buses pci_config_address
out_of_array = refl
