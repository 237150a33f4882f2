-- ===== src/Pci/HostController/Tests.antt =====
-- A bus with nothing but the host bridge.
use java_script_os.Base.{ℕ, ◌≡◌, refl, true, false, ◌&&◌, some, List, ltb, ◌==◌, if◌then◌else◌}
use java_script_os.Pci.Address.{address}
use java_script_os.Pci.Register.{proxy_read}
use java_script_os.Pci.HostController.{
  Device, Visited, register, is_multi_function, attached_devices,
}
use java_script_os.Pci.HostController.Yields.{count, is_listed}
use java_script_os.Pci.HostController.Enumeration.{attached_devices-count}

abbrev config : ℕ → ℕ
config a = if a == 0x80000000 then 0x12378086 else if ltb a 0x80000100 then 0 else 0xffffffff

abbrev unmarked : Visited
unmarked b = false

single : is_multi_function config 0 0 0 ≡ false
unfolding is_multi_function register proxy_read address
single = refl

attached_devices-count_example :
    (ds : List Device) × (v' : Visited) × (attached_devices config 257 unmarked ≡ some (ds, v'))
    × (v' 0 ≡ true)
    × ((x : Device) → count x ds ≡ (if is_listed config x && v' x.bus then 1 else 0))
attached_devices-count_example = attached_devices-count config unmarked single
