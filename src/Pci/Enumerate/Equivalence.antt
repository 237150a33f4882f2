-- ===== src/Pci/Enumerate/Equivalence.antt =====
-- The enumerations in C and in C++ find the same functions, as long as no bus is out of the C array.
use java_script_os.Base.{
  ℕ, zero, suc, ◌+◌, ◌/◌, ◌^◌, ◌≤◌, ◌<◌, ◌≡◌, refl, Bool, true, false, Option, none, some, List,
  ltb, ◌==◌, if◌then◌else◌, u8, u16, arith, Bool-cases, inl, inr, sym, ap, ◌∙◌, subst,
}
use java_script_os.Pci.Address.Laws.{pci_config_address-raw}
use java_script_os.Pci.Register.{pci_read_register8, pci_read_register16, proxy_read, read_register}
use java_script_os.Pci.HostController
use java_script_os.Pci.HostController.{
  Device, Visited, Gen, nothing, one, and_then, mark, register, vendor_id, is_present,
  secondary_bus, is_multi_function, attached_devices,
}
use java_script_os.Pci.HostController.Enumeration.{attached_devices-count}
use java_script_os.Pci.Enumerate
use java_script_os.Pci.Enumerate.{
  Pcidef, read8, read16, is_valid, has_functions, enumerate_all_pci_buses,
}
use java_script_os.Pci.Enumerate.Agree.{
  is_wide, is_wide-marked, is_wide_mono, is_wide-low, Yielded, unless_wide, Agree, Agree-nothing,
  Agree-one, Agree-if, Agree-and_then,
}

-- the constants of the PCI specification, which kernel/devices/pci/Device.hpp has too
abbrev pub standard : Pcidef
standard = record {
  vendor_id_reg_offset = 0x00;
  class_code_reg_offset = 0x0b;
  subclass_reg_offset = 0x0a;
  header_type_reg_offset = 0x0e;
  secondary_bus_num_reg_offset = 0x19;
  vendor_id_invalid = 0xffff;
  bridge_device = 0x06;
  pci_to_pci = 0x04;
  is_multi_function = λ r. r / 2 ^ 7 == 1;
}

module _ (config : ℕ → ℕ) where
  read8-register : (b d f o : ℕ) → read8 standard config b d f o ≡ u8 (register config b d f o)
  unfolding read8 pci_read_register8 register proxy_read read_register
  read8-register b d f o = rw ((pci_config_address-raw b d f o).0) refl

  read16-register : (b d f o : ℕ) → read16 standard config b d f o ≡ u16 (register config b d f o)
  unfolding read16 pci_read_register16 register proxy_read read_register
  read16-register b d f o = rw ((pci_config_address-raw b d f o).0) refl

  is_valid-is_present : (b d f : ℕ) → is_valid standard config b d f ≡ is_present config b d f
  unfolding is_valid is_present vendor_id
  is_valid-is_present b d f = rw (read16-register b d f 0x00) refl

  has_functions-is_multi_function :
      (b d f : ℕ) → has_functions standard config b d f ≡ is_multi_function config b d f
  unfolding has_functions is_multi_function
  has_functions-is_multi_function b d f = rw (read8-register b d f 0x0e) refl

  same_bridges :
      (b d f : ℕ)
      → Enumerate.is_bridge standard config b d f ≡ HostController.is_bridge config b d f
  unfolding Enumerate.is_bridge HostController.is_bridge HostController.class_id
      HostController.subclass_id
  same_bridges b d f = rw (read8-register b d f 0x0b, read8-register b d f 0x0a) refl

  secondary_bus-read8 : (b d f : ℕ) → read8 standard config b d f 0x19 ≡ secondary_bus config b d f
  unfolding secondary_bus
  secondary_bus-read8 b d f = read8-register b d f 0x19

  secondary_bus-lt : (b d f : ℕ) → secondary_bus config b d f < 256
  unfolding secondary_bus
  secondary_bus-lt b d f = omega arith

module _ (config : ℕ → ℕ) (bus bus' : ℕ → Gen)
    (agree : (s : ℕ) → s < 256 → Agree (bus s) (bus' s)) where
  function-Agree :
      (b d f : ℕ)
      → Agree
          (HostController.enumerate_function config bus b d f)
          (Enumerate.enumerate_function standard config bus' b d f)
  unfolding HostController.enumerate_function Enumerate.enumerate_function
  function-Agree b d f =
      rw (same_bridges config b d f, secondary_bus-read8 config b d f)
        (Agree-if (HostController.is_bridge config b d f) _ _ _ _
          (Agree-and_then (one found) _ (one found) _ (Agree-one found)
            (agree (secondary_bus config b d f) (secondary_bus-lt config b d f)))
          (Agree-one found))
    where
      found : Device
      found = record { bus = b; deviceno = d; function = f }

  functions_from-Agree :
      (left b d f : ℕ)
      → Agree
          (HostController.functions_from config bus b d left f)
          (Enumerate.functions_from standard config bus' b d left f)
  unfolding HostController.functions_from Enumerate.functions_from
  functions_from-Agree zero b d f = Agree-nothing
  functions_from-Agree (suc left) b d f = rw (is_valid-is_present config b d f) (
      Agree-and_then _ _ _ _
        (Agree-if (is_present config b d f) _ _ _ _ (function-Agree b d f) Agree-nothing)
        (functions_from-Agree left b d (f + 1)))

  device-Agree :
      (b d : ℕ)
      → Agree
          (HostController.enumerate_device config bus b d)
          (Enumerate.enumerate_device standard config bus' b d)
  unfolding HostController.enumerate_device Enumerate.enumerate_device
  device-Agree b d =
      rw (is_valid-is_present config b d 0, has_functions-is_multi_function config b d 0)
        (Agree-if (is_present config b d 0) _ _ _ _
          (Agree-and_then _ _ _ _ (function-Agree b d 0) (
            Agree-if (is_multi_function config b d 0) _ _ _ _ (functions_from-Agree 7 b d 1)
              Agree-nothing))
          Agree-nothing)

  devices_from-Agree :
      (left b d : ℕ)
      → Agree
          (HostController.devices_from config bus b left d)
          (Enumerate.devices_from standard config bus' b left d)
  unfolding HostController.devices_from Enumerate.devices_from
  devices_from-Agree zero b d = Agree-nothing
  devices_from-Agree (suc left) b d =
      Agree-and_then _ _ _ _ (device-Agree b d) (devices_from-Agree left b (d + 1))

-- What the two calls for a bus do once the test of its mark is known.
module _ (config : ℕ → ℕ) (fuel s : ℕ) (v : Visited) where
  abbrev behind : Option Yielded
  behind =
      HostController.devices_from config (HostController.enumerate_pci_bus config fuel) s 32 0
        (mark s v)

  abbrev behind' : Option Yielded
  behind' =
      Enumerate.devices_from standard config (Enumerate.enumerate_pci_bus standard config fuel) s 32
        0 (mark s v)

  step :
      HostController.enumerate_pci_bus config (suc fuel) s v ≡ (if v s then nothing v else behind)
  unfolding HostController.enumerate_pci_bus
  step = refl

  step' :
      Enumerate.enumerate_pci_bus standard config (suc fuel) s v
      ≡ (if ltb s 8 then (if v s then nothing v else behind') else none)
  unfolding Enumerate.enumerate_pci_bus
  step' = refl

  mark_self : mark s v s ≡ true
  mark_self = ground arith

some-injective : {a b : Yielded} → some a ≡ some b → a ≡ b
some-injective e = cc

module _ (config : ℕ → ℕ) (fuel s : ℕ) (in_range : s < 256)
    (inner : Agree
      (HostController.devices_from config (HostController.enumerate_pci_bus config fuel) s 32 0)
      (Enumerate.devices_from standard config
        (Enumerate.enumerate_pci_bus standard config fuel)
        s
        32
        0)) where
  bus-grows :
      (v : Visited) (r : Yielded)
      → HostController.enumerate_pci_bus config (suc fuel) s v ≡ some r
      → is_wide v ≡ true
      → is_wide r.1 ≡ true
  bus-grows v r e w = elim (Bool-cases (v s)) [
    | inl m ↦
        let q =
          ap (λ b. if b then nothing v else behind config fuel s v) (sym m)
          ∙ sym (step config fuel s v)
          ∙ e in
        subst (λ (x : Yielded). is_wide x.1 ≡ true) (some-injective q) w
    | inr m ↦
        let q =
          ap (λ b. if b then nothing v else behind config fuel s v) (sym m)
          ∙ sym (step config fuel s v)
          ∙ e in
        inner.grows (mark s v) r q (is_wide_mono s v w)
  ]

  bus-same-inside :
      (v : Visited) (r : Yielded)
      → s < 8
      → is_wide v ≡ false
      → HostController.enumerate_pci_bus config (suc fuel) s v ≡ some r
      → (if v s then nothing v else behind' config fuel s v) ≡ unless_wide r
  bus-same-inside v r lt w e = elim (Bool-cases (v s)) [
    | inl m ↦
        let q =
          ap (λ b. if b then nothing v else behind config fuel s v) (sym m)
          ∙ sym (step config fuel s v)
          ∙ e in
        ap (λ b. if b then nothing v else behind' config fuel s v) m
        ∙ sym (ap unless_wide (sym (some-injective q)) ∙ ap (λ b. if b then none else nothing v) w)
    | inr m ↦
        let q =
          ap (λ b. if b then nothing v else behind config fuel s v) (sym m)
          ∙ sym (step config fuel s v)
          ∙ e in
        ap (λ b. if b then nothing v else behind' config fuel s v) m
        ∙ inner.same (mark s v) r (is_wide-low s v lt ∙ w) q
  ]

  -- A bus from 8 on is marked when the C++ code returns.
  bus-wide-outside :
      (v : Visited) (r : Yielded)
      → 8 ≤ s
      → is_wide v ≡ false
      → HostController.enumerate_pci_bus config (suc fuel) s v ≡ some r
      → is_wide r.1 ≡ true
  bus-wide-outside v r ge w e = elim (Bool-cases (v s)) [
    | inl m ↦ absurd (differ (sym (is_wide-marked s v ge in_range m) ∙ w))
    | inr m ↦
        let q =
          ap (λ b. if b then nothing v else behind config fuel s v) (sym m)
          ∙ sym (step config fuel s v)
          ∙ e in
        inner.grows (mark s v) r q
          (is_wide-marked s (mark s v) ge in_range (mark_self config fuel s v))
  ]
    where
      differ : true ≡ false → ⊥
      differ e = cc

  bus-same :
      (v : Visited) (r : Yielded)
      → is_wide v ≡ false
      → HostController.enumerate_pci_bus config (suc fuel) s v ≡ some r
      → Enumerate.enumerate_pci_bus standard config (suc fuel) s v ≡ unless_wide r
  bus-same v r w e = elim (Bool-cases (ltb s 8)) [
    | inl lt ↦
        step' config fuel s v
        ∙ ap (λ b. if b then (if v s then nothing v else behind' config fuel s v) else none) lt
        ∙ bus-same-inside v r (ground arith) w e
    | inr ge ↦
        step' config fuel s v
        ∙ ap (λ b. if b then (if v s then nothing v else behind' config fuel s v) else none) ge
        ∙ sym (ap (λ b. if b then none else some r) (bus-wide-outside v r (ground arith) w e))
  ]

bus-Agree :
    (config : ℕ → ℕ) (fuel s : ℕ)
    → s < 256
    → Agree
        (HostController.enumerate_pci_bus config fuel s)
        (Enumerate.enumerate_pci_bus standard config fuel s)
unfolding HostController.enumerate_pci_bus
bus-Agree config zero s lt = record { grows = λ v r e w. cc; same = λ v r w e. cc }
bus-Agree config (suc fuel) s lt =
    let inner =
      devices_from-Agree config (HostController.enumerate_pci_bus config fuel)
        (Enumerate.enumerate_pci_bus standard config fuel) (λ s' lt'. bus-Agree config fuel s' lt')
        32 s 0 in
    record { grows = bus-grows config fuel s lt inner; same = bus-same config fuel s lt inner }

-- With the constants of the specification, behind a host bridge with one function and with no bus
-- from 8 on marked before: the C++ enumeration returns, and the enumeration in C finds the same
-- functions in the same order and marks the same buses, unless the C++ one has marked a bus from 8
-- on; then the one in C is undefined, for it reads past the end of its array.
pub enumerate_all_pci_buses-attached_devices :
    (config : ℕ → ℕ) (v : Visited)
    → is_multi_function config 0 0 0 ≡ false
    → is_wide v ≡ false
    → (r : List Device × Visited) × (attached_devices config 257 v ≡ some r)
      × (enumerate_all_pci_buses standard config 257 v ≡ (if is_wide r.1 then none else some r))
unfolding enumerate_all_pci_buses attached_devices
enumerate_all_pci_buses-attached_devices config v single narrow =
    let (ds, v', e, m, c) = attached_devices-count config v single in
    (
      (ds, v'),
      e,
      ap
            (λ (b : Bool).
              (if b
                  then Enumerate.buses_from standard config
                      (Enumerate.enumerate_pci_bus standard config 257) 8 0
                  else Enumerate.enumerate_pci_bus standard config 257 0)
                v)
            (has_functions-is_multi_function config 0 0 0 ∙ single)
          ∙ (bus-Agree config 257 0 (omega arith)).same v (ds, v') narrow (returned e),
    )
  where
    returned :
        {o : Option Yielded}
        → attached_devices config 257 v ≡ o
        → HostController.enumerate_pci_bus config 257 0 v ≡ o
    returned e =
        sym (
          ap
            (λ (b : Bool). (if b then nothing else HostController.enumerate_pci_bus config 257 0) v)
            single)
        ∙ e
