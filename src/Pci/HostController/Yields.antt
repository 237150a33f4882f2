-- ===== src/Pci/HostController/Yields.antt =====
-- What a generator may yield, and how that goes together when one follows another.
use java_script_os.Base.{
  ap, ℕ, zero, suc, ◌+◌, ◌*◌, ◌≤◌, ◌<◌, ◌≡◌, refl, Bool, true, false, ◌&&◌, ◌||◌, not, Option, some,
  List, [], ◌∷◌, ◌++◌, ◌==◌, if◌then◌else◌, ltb, leb, arith, Bool-cases, inl, inr,
}
use java_script_os.Pci.HostController.{
  Device, Visited, Gen, nothing, one, and_then, is_present, is_multi_function, mark,
}

abbrev pub same : Device → Device → Bool
same x y = (x.bus == y.bus) && (x.deviceno == y.deviceno) && (x.function == y.function)

same_eq : (x y : Device) → same x y ≡ true → x ≡ y
same_eq x y h = ground arith

pub count : Device → List Device → ℕ
count x [] = 0
count x (y ∷ ys) = (if same x y then 1 else 0) + count x ys

pub count-append : (x : Device) (ys zs : List Device) → count x (ys ++ zs) ≡ count x ys + count x zs
unfolding count
count-append x [] zs = omega arith
count-append x (y ∷ ys) zs = omega (arith, count-append x ys zs)

-- the buses below `n` that are not yet enumerated
pub unvisited : ℕ → Visited → ℕ
unvisited zero v = 0
unvisited (suc n) v = (if v n then 0 else 1) + unvisited n v

pub unvisited_le : (n : ℕ) (v : Visited) → unvisited n v ≤ n
unfolding unvisited
unvisited_le zero v = omega arith
unvisited_le (suc n) v = ground (arith, unvisited_le n v)

pub unvisited_mono :
    (n : ℕ) (v v' : Visited) → ((b : ℕ) → v b ≡ true → v' b ≡ true) → unvisited n v' ≤ unvisited n v
unfolding unvisited
unvisited_mono zero v v' h = omega arith
unvisited_mono (suc n) v v' h = ground (arith, h n, unvisited_mono n v v' h)

unvisited-mark_of_le : (n b : ℕ) (v : Visited) → n ≤ b → unvisited n (mark b v) ≡ unvisited n v
unfolding unvisited
unvisited-mark_of_le zero b v h = refl
unvisited-mark_of_le (suc n) b v h = ground (arith, unvisited-mark_of_le n b v)

pub unvisited-mark :
    (n b : ℕ) (v : Visited) → b < n → v b ≡ false → suc (unvisited n (mark b v)) ≡ unvisited n v
unfolding unvisited
unvisited-mark zero b v h e = absurd (omega arith)
unvisited-mark (suc n) b v h e = elim (Bool-cases (n == b)) [
  | inl q ↦ ground (arith, unvisited-mark_of_le n b v)
  | inr q ↦ ground (arith, unvisited-mark n b v)
]

-- the place of a function among those of its bus
abbrev pub place : Device → ℕ
place x = x.deviceno * 8 + x.function

-- On bus `b` in the places from `lo` to `hi`, or on a bus that was enumerated on the way.
abbrev pub in_scope : ℕ → ℕ → ℕ → Visited → Visited → Device → Bool
in_scope b lo hi v v' x =
    ((x.bus == b) && leb lo (place x) && ltb (place x) hi) || (not (v x.bus) && v' x.bus)

-- With no places of the bus, what is left is the buses that were enumerated on the way.
pub in_scope-nowhere :
    (b : ℕ) (v v' : Visited) (x : Device) → in_scope b 0 0 v v' x ≡ (not (v x.bus) && v' x.bus)
in_scope-nowhere b v v' x = ap (λ t. t || (not (v x.bus) && v' x.bus)) nowhere
  where
    nowhere : ((x.bus == b) && leb 0 (place x) && ltb (place x) 0) ≡ false
    nowhere = ground arith

module _ (config : ℕ → ℕ) where
  -- A function that the code looks for: function 0 of its device answers, the function itself
  -- answers, and it is function 0 or the device says that it has several.
  abbrev pub is_listed : Device → Bool
  is_listed x =
      ltb x.deviceno 32
      && ltb x.function 8
      && is_present config x.bus x.deviceno 0
      && is_present config x.bus x.deviceno x.function
      && ((x.function == 0) || is_multi_function config x.bus x.deviceno 0)

  -- The generator ends; it yields a function at most once, if it is in scope and the code looks for
  -- it, and otherwise not; and no bus that was enumerated is forgotten.
  pub record Yields (b lo hi : ℕ) (v : Visited) (out : Option (List Device × Visited))
      : Type 0 where
    pub devices : List Device
    pub after : Visited
    pub returns : out ≡ some (devices, after)
    pub grows : (x : ℕ) → v x ≡ true → after x ≡ true
    pub counts :
        (x : Device)
        → count x devices ≡ (if is_listed x && in_scope b lo hi v after x then 1 else 0)

  pub Yields-nothing :
      (b lo hi : ℕ) (v : Visited)
      → ((x : Device) → x.bus ≡ b → lo ≤ place x → place x < hi → is_listed x ≡ false)
      → Yields b lo hi v (nothing v)
  unfolding count
  Yields-nothing b lo hi v none_there = record {
    devices = [];
    after = v;
    returns = refl;
    grows = λ x h. h;
    counts = λ x. ground (arith, none_there x);
  }

  one_counts :
      (d : Device) (v : Visited)
      → is_listed d ≡ true
      → v d.bus ≡ true
      → (x : Device)
      → count x (d ∷ [])
        ≡ (if is_listed x && in_scope d.bus (place d) (place d + 1) v v x then 1 else 0)
  unfolding count
  one_counts d v h vb x = elim (Bool-cases (same x d)) [
    | inl e ↦ rw (same_eq x d e) (ground arith)
    | inr e ↦ ground arith
  ]

  pub Yields-one :
      (d : Device) (v : Visited)
      → is_listed d ≡ true
      → v d.bus ≡ true
      → Yields d.bus (place d) (place d + 1) v (one d v)
  unfolding count
  Yields-one d v h vb = record {
    devices = d ∷ [];
    after = v;
    returns = refl;
    grows = λ x h. h;
    counts = λ x. one_counts d v h vb x;
  }

  pub Yields-and_then :
      (b lo mid hi : ℕ) (v : Visited) (f g : Gen)
      → lo ≤ mid
      → mid ≤ hi
      → v b ≡ true
      → Yields b lo mid v (f v)
      → ((v' : Visited)
          → v' b ≡ true
          → unvisited 256 v' ≤ unvisited 256 v
          → Yields b mid hi v' (g v'))
      → Yields b lo hi v (and_then f g v)
  unfolding and_then
  Yields-and_then b lo mid hi v f g le le' vb first then_ =
      let second =
        then_ first.after (first.grows b vb) (unvisited_mono 256 v first.after first.grows) in
      record {
        devices = first.devices ++ second.devices;
        after = second.after;
        returns = rw (first.returns, second.returns);
        grows = λ x h. second.grows x (first.grows x h);
        counts = λ x. ground (
          arith,
          count-append x first.devices second.devices,
          first.counts x,
          second.counts x,
          first.grows x.bus,
          second.grows x.bus,
          first.grows b,
        );
      }

  -- The same places, written in another way.
  pub Yields-places :
      (b lo hi lo' hi' : ℕ) (v : Visited) (out : Option (List Device × Visited))
      → lo ≡ lo'
      → hi ≡ hi'
      → Yields b lo hi v out
      → Yields b lo' hi' v out
  Yields-places b lo hi lo' hi' v out p q y = rw (← p, ← q) y
