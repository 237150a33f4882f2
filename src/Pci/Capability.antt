-- ===== src/Pci/Capability.antt =====
-- The capabilities of a PCI function: `Capability`, `MSIXCapability`, `create_capability` and
-- `Capabilities` of kernel/devices/pci/Device.hpp, with `find_if` of kernel/libcppk/algorithm.hpp on
-- their iterator. `undefined` is the flow off the end of
-- `create_capability`, a function that has to return a value.
use java_script_os.Base.{
  ℕ, zero, suc, ◌*◌, ◌%◌, ◌^◌, Bool, Option, none, some, ◌==◌, if◌then◌else◌, u8, u32,
}
use java_script_os.Pci.Address.{ConfigSpaceAddress, raw, of_raw, set_offset, add_offset}
use java_script_os.Pci.Register.{proxy_read}
use java_script_os.Pci.Header.{Header, general, bridge, cardbus}

-- `device_capability::MSIX`
abbrev pub msix : ℕ
msix = 0x11

-- where a search for a capability ends
pub data Search : Type 0 where
  returned : ConfigSpaceAddress → Search
  undefined : Search
  out_of_fuel : Search

abbrev pub or_undefined : Option ConfigSpaceAddress → (ConfigSpaceAddress → Search) → Search
or_undefined none k = undefined
or_undefined (some a) k = k a

-- `capabilities()` of the class of a header: the address where its iteration begins
unfoldable pub first_capability : Header → ConfigSpaceAddress → ConfigSpaceAddress
unfolding add_offset
first_capability general base = add_offset base 0x34
first_capability bridge base = add_offset base 0x34
first_capability cardbus base = add_offset base 0x14

module _ (config : ℕ → ℕ) where
  -- a register of a capability, before the cut to its type
  unfoldable pub field : ConfigSpaceAddress → ℕ → ℕ
  unfolding proxy_read
  field base offset = (proxy_read base offset (record { latch = 0; config = config })).1

  unfoldable pub capability_id : ConfigSpaceAddress → ℕ
  unfolding field
  capability_id base = u8 (field base 0x00)

  unfoldable pub next_capability_pointer : ConfigSpaceAddress → ℕ
  unfolding field
  next_capability_pointer base = u8 (field base 0x01)

  -- `& 0b111`
  unfoldable pub table_bir : ConfigSpaceAddress → ℕ
  unfolding field
  table_bir base = u8 (field base 0x04) % 2 ^ 3

  -- `& !0b111`, a mask of no bits
  unfoldable pub table_offset : ConfigSpaceAddress → ℕ
  unfolding field
  table_offset base = u32 (field base 0x04) * 0

  unfoldable pub pending_bit_array_bir : ConfigSpaceAddress → ℕ
  unfolding field
  pending_bit_array_bir base = u8 (field base 0x08) % 2 ^ 3

  unfoldable pub pending_bit_array_offset : ConfigSpaceAddress → ℕ
  unfolding field
  pending_bit_array_offset base = u32 (field base 0x08) * 0

  unfoldable pub create_capability : ConfigSpaceAddress → Option ConfigSpaceAddress
  unfolding capability_id
  create_capability base = if capability_id base == msix then some base else none

  -- the address that `operator++` goes to
  unfoldable pub next_base : ConfigSpaceAddress → ConfigSpaceAddress
  unfolding next_capability_pointer of_raw set_offset
  next_base base =
      let next = next_capability_pointer base in
      if next == 0 then of_raw 0 else set_offset base next

  -- `CapabilityIterator::operator++`
  unfoldable pub increment : ConfigSpaceAddress → Option ConfigSpaceAddress
  unfolding create_capability next_base
  increment base = create_capability (next_base base)

  -- `find_if(first, last, p)`; the two iterators are the same when their raw addresses are.
  unfoldable pub find_if :
      ℕ → (first last : ConfigSpaceAddress) → (ConfigSpaceAddress → Bool) → Search
  unfolding increment raw
  find_if zero first last p = out_of_fuel
  find_if (suc fuel) first last p =
      let rest = or_undefined (increment first) (λ next. find_if fuel next last p) in
      if raw first == raw last then returned last else if p first then returned first else rest
