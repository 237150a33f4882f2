-- ===== src/Pci/Register.antt =====
-- Configuration registers through the ports 0xCF8 and 0xCFC: `RegisterProxy` of
-- kernel/devices/pci/Device.hpp and the functions `pci_read_register…`, `pci_write_register…` of
-- kernel/devices/pci.c. The configuration space behind the ports holds a 32-bit number at each
-- address: a register that keeps what is written to it. The shifts by 0, 8, 16 or 24 bits and the
-- masks are multiplication and division by the lane's weight.
pub mod Laws
use java_script_os.Base.{ℕ, ◌+◌, ◌-◌, ◌*◌, ◌/◌, ◌%◌, ◌^◌, Bool, ◌==◌, if◌then◌else◌, u8, u16, u32}
use java_script_os.Pci.Address.{ConfigSpaceAddress, raw, add_offset, pci_config_address}

-- `address_port` is latched, `data_port` reads and writes the register at the latched address.
pub record Ports : Type 0 where
  pub latch : ℕ
  pub config : ℕ → ℕ

-- `out32(address_port, a)`
unfoldable pub out_address : ℕ → Ports → Ports
out_address a p = record p { latch = a }

-- `in32(data_port)`
unfoldable pub in_data : Ports → ℕ
in_data p = p.config p.latch

-- `out32(data_port, v)`
unfoldable pub out_data : ℕ → Ports → Ports
out_data v p = record p { config = λ a. if a == p.latch then v else p.config a }

-- 2 to the power `(offset & 0b11) * 8`
abbrev pub lane : ℕ → ℕ
lane offset =
    if offset % 4 == 0
    then 1
    else if offset % 4 == 1
    then 2 ^ 8
    else if offset % 4 == 2
    then 2 ^ 16
    else 2 ^ 24

-- `cur &= ~(m << shift); cur |= value << shift` for a mask `m` of ones, `width` its end, on 32 bits
abbrev pub replace : (width w cur value : ℕ) → ℕ
replace width w cur value = u32 (cur - cur / w % width * w + value * w)

module _ (a : ℕ) (offset : ℕ) where
  -- `read_register`, with the port state that it leaves; a read at a narrower type cuts the number.
  unfoldable pub read_register : Ports → Ports × ℕ
  unfolding out_address in_data
  read_register p = let p' = out_address a p in (p', in_data p' / lane offset)

  unfoldable pub write_register8 : ℕ → Ports → Ports
  unfolding out_address in_data out_data
  write_register8 value p =
      let p' = out_address a p in
      out_data (replace (2 ^ 8) (lane offset) (in_data p') (u8 value)) p'

  unfoldable pub write_register16 : ℕ → Ports → Ports
  unfolding out_address in_data out_data
  write_register16 value p =
      let p' = out_address a p in
      out_data (replace (2 ^ 16) (lane offset) (in_data p') (u16 value)) p'

  unfoldable pub write_register32 : ℕ → Ports → Ports
  unfolding out_address out_data
  write_register32 value p = out_data (u32 value) (out_address a p)

-- `RegisterProxy<T>::read_register` and `write_register` for a base address and a register offset,
-- by the size of `T`.
unfoldable pub proxy_read : ConfigSpaceAddress → ℕ → Ports → Ports × ℕ
unfolding raw add_offset read_register
proxy_read base offset = read_register (raw (add_offset base offset)) offset

pub data Size : Type 0 where
  byte word dword : Size

unfoldable pub proxy_write : ConfigSpaceAddress → ℕ → Size → ℕ → Ports → Ports
unfolding raw add_offset write_register8 write_register16 write_register32
proxy_write base offset byte = write_register8 (raw (add_offset base offset)) offset
proxy_write base offset word = write_register16 (raw (add_offset base offset)) offset
proxy_write base offset dword = write_register32 (raw (add_offset base offset)) offset

module _ (bus device function offset : ℕ) where
  abbrev config_address : ℕ
  config_address = pci_config_address bus device function offset

  unfoldable pub pci_read_register8 : Ports → Ports × ℕ
  unfolding read_register
  pci_read_register8 p = let (p', v) = read_register config_address offset p in (p', u8 v)

  unfoldable pub pci_read_register16 : Ports → Ports × ℕ
  unfolding read_register
  pci_read_register16 p = let (p', v) = read_register config_address offset p in (p', u16 v)

  unfoldable pub pci_read_register32 : Ports → Ports × ℕ
  unfolding read_register
  pci_read_register32 p = read_register config_address offset p

  unfoldable pub pci_write_register8 : ℕ → Ports → Ports
  unfolding write_register8
  pci_write_register8 value p = write_register8 config_address offset value p

  -- The shift is by `(offset & 0b10) * 8`.
  unfoldable pub pci_write_register16 : ℕ → Ports → Ports
  unfolding write_register16
  pci_write_register16 value p = write_register16 config_address (offset / 2 * 2) value p

  unfoldable pub pci_write_register32 : ℕ → Ports → Ports
  unfolding write_register32
  pci_write_register32 value p = write_register32 config_address offset value p
