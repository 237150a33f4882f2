-- ===== src/Pci/Enumerate/Agree.antt =====
-- Two generators of which the second is undefined once a bus from 8 on is marked, and otherwise
-- yields what the first does.
use java_script_os.Base.{
  ℕ, zero, suc, ◌+◌, ◌≤◌, ◌<◌, ◌≡◌, refl, Bool, true, false, ◌||◌, Option, none, some, List, [],
  ◌∷◌, ◌++◌, ◌==◌, if◌then◌else◌, ◌>>=◌, >>=-eq-some, arith, Bool-cases, inl, inr, sym, ap, ◌∙◌,
  subst,
}
use java_script_os.Pci.HostController.{Device, Visited, Gen, nothing, one, and_then, mark}

-- one of the `n` buses from 8 on is marked
abbrev pub any_from_8 : ℕ → Visited → Bool
any_from_8 zero v = false
any_from_8 (suc n) v = v (8 + n) || any_from_8 n v

-- a bus from 8 to 255 is marked
unfoldable pub is_wide : Visited → Bool
is_wide v = any_from_8 248 v

any_from_8-mem : (n b : ℕ) (v : Visited) → 8 ≤ b → b < 8 + n → v b ≡ true → any_from_8 n v ≡ true
any_from_8-mem zero b v lo hi h = absurd (omega arith)
any_from_8-mem (suc n) b v lo hi h = elim (Bool-cases (b == 8 + n)) [
  | inl e ↦ let q : b ≡ 8 + n = ground arith in ap (λ t. t || any_from_8 n v) (ap v (sym q) ∙ h)
  | inr e ↦ ground (arith, any_from_8-mem n b v lo (ground arith) h)
]

any_from_8_mono : (n b : ℕ) (v : Visited) → any_from_8 n v ≡ true → any_from_8 n (mark b v) ≡ true
any_from_8_mono zero b v h = h
any_from_8_mono (suc n) b v h = ground (arith, any_from_8_mono n b v)

any_from_8-low : (n b : ℕ) (v : Visited) → b < 8 → any_from_8 n (mark b v) ≡ any_from_8 n v
any_from_8-low zero b v h = refl
any_from_8-low (suc n) b v h = ground (arith, any_from_8-low n b v h)

pub is_wide-marked : (b : ℕ) (v : Visited) → 8 ≤ b → b < 256 → v b ≡ true → is_wide v ≡ true
unfolding is_wide
is_wide-marked b v lo hi h = any_from_8-mem 248 b v lo (omega arith) h

pub is_wide_mono : (b : ℕ) (v : Visited) → is_wide v ≡ true → is_wide (mark b v) ≡ true
unfolding is_wide
is_wide_mono b v h = any_from_8_mono 248 b v h

pub is_wide-low : (b : ℕ) (v : Visited) → b < 8 → is_wide (mark b v) ≡ is_wide v
unfolding is_wide
is_wide-low b v h = any_from_8-low 248 b v h

abbrev pub Yielded : Type 0
Yielded = List Device × Visited

-- nothing once a bus from 8 on is marked
abbrev pub unless_wide : Yielded → Option Yielded
unless_wide r = if is_wide r.1 then none else some r

pub record Agree (f g : Gen) : Type 0 where
  pub grows : (v : Visited) (r : Yielded) → f v ≡ some r → is_wide v ≡ true → is_wide r.1 ≡ true
  pub same : (v : Visited) (r : Yielded) → is_wide v ≡ false → f v ≡ some r → g v ≡ unless_wide r

-- A generator that always returns and marks nothing agrees with itself.
Agree-still : (ds : List Device) → Agree (λ v. some (ds, v)) (λ v. some (ds, v))
Agree-still ds = record {
  grows = λ v r e w. subst (λ (x : Yielded). is_wide x.1 ≡ true) (inner e) w;
  same = λ v r w e.
      subst (λ (x : Yielded). some (ds, v) ≡ unless_wide x) (inner e)
        (sym (ap (λ b. if b then none else some (ds, v)) w));
}
  where
    inner : {a b : Yielded} → some a ≡ some b → a ≡ b
    inner e = cc

pub Agree-nothing : Agree nothing nothing
Agree-nothing = Agree-still []

pub Agree-one : (d : Device) → Agree (one d) (one d)
Agree-one d = Agree-still (d ∷ [])

pub Agree-if :
    (b : Bool) (f f' g g' : Gen)
    → Agree f g
    → Agree f' g'
    → Agree (if b then f else f') (if b then g else g')
Agree-if true f f' g g' a a' = a
Agree-if false f f' g g' a a' = a'

-- The two parts of a result of one generator after another.
record Parts (f f' : Gen) (v : Visited) (r : Yielded) : Type 0 where
  first : Yielded
  second : Yielded
  is_first : f v ≡ some first
  is_second : f' first.1 ≡ some second
  joined : r ≡ (first.0 ++ second.0, second.1)

and_then-Parts :
    (f f' : Gen) (v : Visited) (r : Yielded) → and_then f f' v ≡ some r → Parts f f' v r
unfolding and_then
and_then-Parts f f' v r e =
    let (x, p, q) =
      >>=-eq-some (f v) (λ (x : Yielded). f' x.1 >>= λ (y : Yielded). some (x.0 ++ y.0, y.1)) e in
    let (y, p', q') = >>=-eq-some (f' x.1) (λ (y : Yielded). some (x.0 ++ y.0, y.1)) q in
    record { first = x; second = y; is_first = p; is_second = p'; joined = cc }

and_then-none : (g g' : Gen) (v : Visited) → g v ≡ none → and_then g g' v ≡ none
unfolding and_then
and_then-none g g' v e = rw e refl

and_then-some :
    (g g' : Gen) (v : Visited) (x y : Yielded) (o : Option Yielded)
    → g v ≡ some x
    → g' x.1 ≡ o
    → and_then g g' v ≡ (o >>= λ (y : Yielded). some (x.0 ++ y.0, y.1))
unfolding and_then
and_then-some g g' v x y o e e' = rw (e, e') refl

pub Agree-and_then :
    (f f' g g' : Gen) → Agree f g → Agree f' g' → Agree (and_then f f') (and_then g g')
Agree-and_then f f' g g' a a' = record {
  grows = λ v r e w.
      let p = and_then-Parts f f' v r e in
      ap (λ (x : Yielded). is_wide x.1) p.joined
      ∙ a'.grows p.first.1 p.second p.is_second (a.grows v p.first p.is_first w);
  same = λ v r w e.
      let p = and_then-Parts f f' v r e in
      elim (Bool-cases (is_wide p.first.1)) [
        | inl wide ↦
            and_then-none g g' v
              (a.same v p.first w p.is_first ∙ ap (λ b. if b then none else some p.first) wide)
            ∙ sym (
                ap unless_wide p.joined
                ∙ ap (λ b. if b then none else some (p.first.0 ++ p.second.0, p.second.1))
                    (a'.grows p.first.1 p.second p.is_second wide))
        | inr narrow ↦
            and_then-some g g' v p.first p.second _
              (a.same v p.first w p.is_first ∙ ap (λ b. if b then none else some p.first) narrow)
              (a'.same p.first.1 p.second narrow p.is_second)
            ∙ joined_unless p.first p.second
            ∙ sym (ap unless_wide p.joined)
      ];
}
  where
    joined_unless :
        (x y : Yielded)
        → (unless_wide y >>= λ (y : Yielded). some (x.0 ++ y.0, y.1))
          ≡ unless_wide (x.0 ++ y.0, y.1)
    joined_unless x y = elim (Bool-cases (is_wide y.1)) [ inl e ↦ rw e refl | inr e ↦ rw e refl ]
