-- ===== src/Pci/HostController/Loops.antt =====
-- The generators of one bus, given that those of the buses behind its bridges end.
use java_script_os.Base.{
  ℕ, zero, suc, ◌+◌, ◌*◌, ◌≤◌, ◌<◌, ◌≡◌, true, false, if◌then◌else◌, arith, Bool-cases, inl, inr,
  ltb,
}
use java_script_os.Pci.HostController.{
  Device, Visited, Gen, nothing, one, is_present, is_bridge, secondary_bus, is_multi_function,
  enumerate_function, functions_from, enumerate_device, devices_from,
}
use java_script_os.Pci.HostController.Yields.{
  Yields, Yields-nothing, Yields-one, Yields-and_then, Yields-places, unvisited, place, is_listed,
}

secondary_bus-lt : (config : ℕ → ℕ) (b d f : ℕ) → secondary_bus config b d f < 256
unfolding secondary_bus
secondary_bus-lt config b d f = omega arith

module _ (config : ℕ → ℕ) where
  -- Why a part of a loop may yield nothing: the function, the device or the other functions do not
  -- answer.
  not_listed :
      (b d f : ℕ)
      → is_present config b d f ≡ false
      → f < 8
      → (x : Device) → x.bus ≡ b
      → d * 8 + f ≤ place x
      → place x < d * 8 + f + 1
      → is_listed config x ≡ false
  not_listed b d f e f_lt x p q r = elim (Bool-cases (ltb x.function 8)) [
    | inl lt ↦
        let same_d : x.deviceno ≡ d = ground arith in
        let same_f : x.function ≡ f = ground arith in ground (arith, there x p same_d same_f e)
    | inr ge ↦ ground arith
  ]
    where
      there :
          (x : Device)
          → x.bus ≡ b
          → x.deviceno ≡ d
          → x.function ≡ f
          → is_present config b d f ≡ false
          → is_present config x.bus x.deviceno x.function ≡ false
      there x p q r e = rw (p, q, r) e

  absent :
      (b d : ℕ)
      → is_present config b d 0 ≡ false
      → (x : Device) → x.bus ≡ b
      → d * 8 ≤ place x
      → place x < d * 8 + 8
      → is_listed config x ≡ false
  absent b d e x p q r = elim (Bool-cases (ltb x.function 8)) [
    | inl lt ↦
        let same_d : x.deviceno ≡ d = ground arith in
        let out : is_present config x.bus x.deviceno 0 ≡ false = rw (p, same_d) e in ground arith
    | inr ge ↦ ground arith
  ]

  single :
      (b d : ℕ)
      → is_multi_function config b d 0 ≡ false
      → (x : Device) → x.bus ≡ b
      → d * 8 + 1 ≤ place x
      → place x < d * 8 + 8
      → is_listed config x ≡ false
  single b d e x p q r = elim (Bool-cases (ltb x.function 8)) [
    | inl lt ↦
        let same_d : x.deviceno ≡ d = ground arith in
        let out : is_multi_function config x.bus x.deviceno 0 ≡ false = rw (p, same_d) e in
        ground arith
    | inr ge ↦ ground arith
  ]

module _ (config : ℕ → ℕ) (bus_gen : ℕ → Gen) (bound : ℕ)
    (ends : (s : ℕ) (v : Visited) (b p : ℕ)
      → s < 256
      → unvisited 256 v < bound
      → Yields config b p p v (bus_gen s v)) where
  enumerate_function-Yields :
      (b d f : ℕ) (v : Visited)
      → is_listed config (record { bus = b; deviceno = d; function = f }) ≡ true
      → v b ≡ true
      → unvisited 256 v < bound
      → Yields config b (d * 8 + f) (d * 8 + f + 1) v (enumerate_function config bus_gen b d f v)
  unfolding enumerate_function
  enumerate_function-Yields b d f v here vb small =
      let dev : Device = record { bus = b; deviceno = d; function = f } in
      elim (Bool-cases (is_bridge config b d f)) [
        | inl e ↦ rw e (
            Yields-and_then config b (d * 8 + f) (d * 8 + f + 1) (d * 8 + f + 1) v (one dev)
              (bus_gen (secondary_bus config b d f)) (omega arith) (omega arith) vb
              (Yields-one config dev v here vb)
              (λ v' vb' le.
                ends (secondary_bus config b d f) v' b (d * 8 + f + 1)
                  (secondary_bus-lt config b d f) (omega arith)))
        | inr e ↦ rw e (Yields-one config dev v here vb)
      ]

  functions_from-Yields :
      (left b d f : ℕ) (v : Visited)
      → f + left ≤ 8
      → d < 32
      → is_present config b d 0 ≡ true
      → is_multi_function config b d 0 ≡ true
      → v b ≡ true
      → unvisited 256 v < bound
      → Yields config b
          (d * 8 + f)
          (d * 8 + f + left)
          v
          (functions_from config bus_gen b d left f v)
  unfolding functions_from
  functions_from-Yields zero b d f v fits lt here multi vb small =
      Yields-nothing config b _ _ v (λ x p q r. absurd (omega arith))
  functions_from-Yields (suc left) b d f v fits lt here multi vb small =
      Yields-and_then config b (d * 8 + f) (d * 8 + f + 1) (d * 8 + f + suc left) v
        (if is_present config b d f then enumerate_function config bus_gen b d f else nothing)
        (functions_from config bus_gen b d left (f + 1)) (omega arith) (omega arith) vb
        (elim (Bool-cases (is_present config b d f)) [
          | inl e ↦ rw e (enumerate_function-Yields b d f v (ground arith) vb small)
          | inr e ↦ rw e (Yields-nothing config b _ _ v (not_listed config b d f e (omega arith)))
        ])
        (λ v' vb' le.
          Yields-places config b (d * 8 + (f + 1)) (d * 8 + (f + 1) + left) _ _ v' _ (omega arith)
            (omega arith)
            (functions_from-Yields left b d (f + 1) v' (omega arith) lt here multi vb'
              (omega arith)))

  enumerate_device-Yields :
      (b d : ℕ) (v : Visited)
      → d < 32
      → v b ≡ true
      → unvisited 256 v < bound
      → Yields config b (d * 8) (d * 8 + 8) v (enumerate_device config bus_gen b d v)
  unfolding enumerate_device
  enumerate_device-Yields b d v lt vb small = elim (Bool-cases (is_present config b d 0)) [
    | inl e ↦ rw e (
        Yields-and_then config b (d * 8) (d * 8 + 1) (d * 8 + 8) v
          (enumerate_function config bus_gen b d 0)
          (if is_multi_function config b d 0
            then functions_from config bus_gen b d 7 1
            else nothing)
          (omega arith) (omega arith) vb
          (Yields-places config b (d * 8 + 0) (d * 8 + 0 + 1) _ _ v _ (omega arith) (omega arith)
            (enumerate_function-Yields b d 0 v (ground arith) vb small))
          (λ v' vb' le. elim (Bool-cases (is_multi_function config b d 0)) [
            | inl m ↦ rw m (
                Yields-places config b (d * 8 + 1) (d * 8 + 1 + 7) _ _ v' _ (omega arith)
                  (omega arith)
                  (functions_from-Yields 7 b d 1 v' (omega arith) lt e m vb' (omega arith)))
            | inr m ↦ rw m (Yields-nothing config b _ _ v' (single config b d m))
          ]))
    | inr e ↦ rw e (Yields-nothing config b _ _ v (absent config b d e))
  ]

  pub devices_from-Yields :
      (left b d : ℕ) (v : Visited)
      → d + left ≤ 32
      → v b ≡ true
      → unvisited 256 v < bound
      → Yields config b (d * 8) ((d + left) * 8) v (devices_from config bus_gen b left d v)
  unfolding devices_from
  devices_from-Yields zero b d v fits vb small =
      Yields-nothing config b _ _ v (λ x p q r. absurd (omega arith))
  devices_from-Yields (suc left) b d v fits vb small =
      Yields-and_then config b (d * 8) (d * 8 + 8) ((d + suc left) * 8) v
        (enumerate_device config bus_gen b d) (devices_from config bus_gen b left (d + 1))
        (omega arith) (omega arith) vb (enumerate_device-Yields b d v (omega arith) vb small)
        (λ v' vb' le.
          Yields-places config b ((d + 1) * 8) ((d + 1 + left) * 8) _ _ v' _ (omega arith)
            (omega arith) (devices_from-Yields left b (d + 1) v' (omega arith) vb' (omega arith)))
