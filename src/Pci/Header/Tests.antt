-- ===== src/Pci/Header/Tests.antt =====
-- Headers on concrete numbers.
use java_script_os.Base.{◌≡◌, refl, arith, some}
use java_script_os.Pci.Address.{ConfigSpaceAddress}
use java_script_os.Pci.Register.{Ports, byte, proxy_write}
use java_script_os.Pci.Header.{
  bridge, of_bridge, status_reg, place, bridge_secondary_bus, create_device,
}
use java_script_os.Pci.Header.Laws.{byte_of, proxy_write-other}

abbrev ports : Ports
ports = record { latch = 0; config = λ a. 0x00010607 }

create_device-bridge : (create_device 0 30 0 ports).1 ≡ some bridge
unfolding create_device
create_device-bridge = refl

abbrev function : ConfigSpaceAddress
function = record { offset = 0; function = 0; device = 30; bus = 0; reserved = 0; enable = 1 }

proxy_write-other_example :
    byte_of function (proxy_write function 0x19 byte 5 ports) 6 ≡ byte_of function ports 6
unfolding place
proxy_write-other_example =
    proxy_write-other function ports refl (λ a. omega arith) bridge bridge_secondary_bus
      (of_bridge status_reg) 5 6 (λ e. cc) (omega arith) (omega arith)
