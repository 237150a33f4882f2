-- ===== src/Pci/HostController/Enumeration.antt =====
-- The enumeration ends, and yields each device that it finds once.
use java_script_os.Base.{
  Bool, ap, ◌∙◌, ℕ, zero, suc, ◌<◌, ◌≡◌, true, false, ◌&&◌, not, Option, some, List, if◌then◌else◌,
  arith, Bool-cases, inl, inr,
}
use java_script_os.Pci.HostController.{
  Device, Visited, is_multi_function, mark, enumerate_pci_bus, attached_devices,
}
use java_script_os.Pci.HostController.Yields.{
  Yields, Yields-nothing, unvisited, unvisited-mark, unvisited_le, in_scope-nowhere, count,
  is_listed,
}
use java_script_os.Pci.HostController.Loops.{devices_from-Yields}

-- A bus that was marked before its devices are enumerated is in scope as a new bus.
Yields-mark :
    (config : ℕ → ℕ) (s b p : ℕ) (v : Visited) (out : Option (List Device × Visited))
    → v s ≡ false
    → Yields config s 0 256 (mark s v) out
    → Yields config b p p v out
Yields-mark config s b p v out new y = record {
  devices = y.devices;
  after = y.after;
  returns = y.returns;
  grows = λ x h. y.grows x (ground arith);
  counts = λ x. ground (arith, y.counts x, y.grows x.bus, y.grows s);
}

pub enumerate_pci_bus-Yields :
    (config : ℕ → ℕ) (fuel s : ℕ) (v : Visited) (b p : ℕ)
    → s < 256
    → unvisited 256 v < fuel
    → Yields config b p p v (enumerate_pci_bus config fuel s v)
unfolding enumerate_pci_bus
enumerate_pci_bus-Yields config zero s v b p lt small = absurd (omega arith)
enumerate_pci_bus-Yields config (suc fuel) s v b p lt small = elim (Bool-cases (v s)) [
  | inl e ↦ rw e (Yields-nothing config b p p v (λ x a c d. absurd (omega arith)))
  | inr e ↦ rw e (
      Yields-mark config s b p v _ e (
        devices_from-Yields config (enumerate_pci_bus config fuel) fuel
          (λ s' v' b' p' lt' small'. enumerate_pci_bus-Yields config fuel s' v' b' p' lt' small') 32
          s 0 (mark s v) (omega arith) (ground arith) (omega (arith, unvisited-mark 256 s v lt e))))
]

-- The bus itself is marked.
enumerate_pci_bus-marked :
    (config : ℕ → ℕ) (fuel s : ℕ) (v : Visited)
    (y : Yields config s 0 0 v (enumerate_pci_bus config fuel s v))
    → s < 256
    → unvisited 256 v < fuel
    → y.after s ≡ true
unfolding enumerate_pci_bus
enumerate_pci_bus-marked config zero s v y lt small = absurd (omega arith)
enumerate_pci_bus-marked config (suc fuel) s v y lt small = elim (Bool-cases (v s)) [
  | inl e ↦ y.grows s e
  | inr e ↦
      let inner =
        devices_from-Yields config (enumerate_pci_bus config fuel) fuel
          (λ s' v' b' p' lt' small'. enumerate_pci_bus-Yields config fuel s' v' b' p' lt' small') 32
          s 0 (mark s v) (omega arith) (ground arith)
          (omega (arith, unvisited-mark 256 s v lt e)) in
      ground (arith, inner.returns, y.returns, inner.grows s)
]

-- Behind a host bridge with one function the enumeration ends, within 257 nested calls, and marks
-- bus 0. It yields exactly the functions that the code looks for on the buses marked on the way,
-- each of them once.
pub attached_devices-count :
    (config : ℕ → ℕ) (v : Visited)
    → is_multi_function config 0 0 0 ≡ false
    → (ds : List Device) × (v' : Visited) × (attached_devices config 257 v ≡ some (ds, v'))
      × (v' 0 ≡ true)
      × ((x : Device)
          → count x ds ≡ (if is_listed config x && (not (v x.bus) && v' x.bus) then 1 else 0))
unfolding attached_devices
attached_devices-count config v single =
    let y =
      enumerate_pci_bus-Yields config 257 0 v 0 0 (omega arith)
        (omega (arith, unvisited_le 256 v)) in
    (
      y.devices,
      y.after,
      rw single y.returns,
      enumerate_pci_bus-marked config 257 0 v y (omega arith) (omega (arith, unvisited_le 256 v)),
      λ x.
          y.counts x
          ∙ ap (λ (t : Bool). if is_listed config x && t then 1 else 0)
              (in_scope-nowhere 0 v y.after x),
    )
