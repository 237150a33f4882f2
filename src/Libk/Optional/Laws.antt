-- ===== src/Libk/Optional/Laws.antt =====
-- What an optional stands for.
use java_script_os.Base.{
  ℕ, ◌+◌, ◌≡◌, refl, Bool, true, false, Option, none, some, List, [], ◌∷◌, arith, ◌>>=◌,
}
use java_script_os.Libk.Optional.{
  Optional, raw, construct, empty, of_value, has_value, value, reset, copy, move, assign, destroy,
}

-- what is done to an optional
pub data Op {ℓ} (A : Type ℓ) : Type ℓ where
  assign_of : A → Op A
  reset_of : Op A

-- how it was made
abbrev pub make {ℓ} : {A : Type ℓ} → Option A → Optional A
make none = empty
make (some v) = of_value v

module _ {ℓ} {A : Type ℓ} where
  abbrev pub perform : Op A → Optional A → Option (Optional A)
  perform (assign_of v) o = assign v o
  perform reset_of o = reset o

  abbrev pub perform_all : List (Op A) → Optional A → Option (Optional A)
  perform_all [] o = some o
  perform_all (op ∷ ops) o = perform op o >>= perform_all ops

  -- the value that the operations leave
  abbrev pub left_by : List (Op A) → Option A → Option A
  left_by [] m = m
  left_by (assign_of v ∷ ops) m = left_by ops (some v)
  left_by (reset_of ∷ ops) m = left_by ops none

  abbrev pub is_some : Option A → Bool
  is_some none = false
  is_some (some v) = true

  abbrev pub count : Option A → ℕ
  count none = 0
  count (some v) = 1

  -- An optional that holds a value or is empty; each object that was constructed in it and does not
  -- live there was destroyed, once.
  pub record Holds (m : Option A) (o : Optional A) : Type ℓ where
    pub holds_value : value o ≡ m
    pub flag : has_value o ≡ some (is_some m)
    pub balance : o.constructed ≡ o.destroyed + count m

  make-Holds : (m : Option A) → Holds m (make m)
  unfolding empty of_value construct
  make-Holds none = record { holds_value = refl; flag = refl; balance = refl }
  make-Holds (some v) = record { holds_value = refl; flag = refl; balance = refl }

  assign-Holds :
      (v : A) (m : Option A) (o : Optional A)
      → Holds m o
      → (o' : Optional A) × (assign v o ≡ some o') × Holds (some v) o'
  unfolding assign construct
  assign-Holds v none o h = (
    construct v o,
    rw h.flag refl,
    record { holds_value = refl; flag = refl; balance = omega (arith, h.balance) },
  )
  assign-Holds v (some w) o h = (
    record o { storage = some v },
    simp (h.flag, h.holds_value) refl,
    record { holds_value = refl; flag = h.flag; balance = h.balance },
  )

  destroy-Holds : (w : A) (o : Optional A) → Holds (some w) o → Holds none (destroy o w)
  unfolding destroy
  destroy-Holds w o h = record {
    holds_value = refl;
    flag = refl;
    balance = omega (arith, h.balance);
  }

  reset-Holds :
      (m : Option A) (o : Optional A)
      → Holds m o
      → (o' : Optional A) × (reset o ≡ some o') × Holds none o'
  unfolding reset destroy
  reset-Holds none o h = (o, simp (h.flag) refl, h)
  reset-Holds (some w) o h = (destroy o w, rw (h.flag, h.holds_value) refl, destroy-Holds w o h)

  perform_all-Holds :
      (ops : List (Op A)) (m : Option A) (o : Optional A)
      → Holds m o
      → (o' : Optional A) × (perform_all ops o ≡ some o') × Holds (left_by ops m) o'
  perform_all-Holds [] m o h = (o, refl, h)
  perform_all-Holds (assign_of v ∷ ops) m o h =
      let (o1, e1, h1) = assign-Holds v m o h in
      let (o', e, h') = perform_all-Holds ops (some v) o1 h1 in (o', rw e1 e, h')
  perform_all-Holds (reset_of ∷ ops) m o h =
      let (o1, e1, h1) = reset-Holds m o h in
      let (o', e, h') = perform_all-Holds ops none o1 h1 in (o', rw e1 e, h')

  -- the flag and the value of a copy, and of what a move makes and leaves
  abbrev pub Copied : Option A → Optional A → Type ℓ
  Copied m o =
      (new : Optional A) × (copy o ≡ some new)
      × (value new ≡ m)
      × (has_value new ≡ (elim m [ none ↦ none | some v ↦ some true ]))

  abbrev pub Moved : Option A → Optional A → Type ℓ
  Moved m o =
      (new left : Optional A) × (move o ≡ some (new, left))
      × (value new ≡ m)
      × (has_value new ≡ (elim m [ none ↦ none | some v ↦ some true ]))
      × Holds none left

  copy-Copied : (m : Option A) (o : Optional A) → Holds m o → Copied m o
  unfolding copy construct
  copy-Copied none o h = (raw, simp (h.flag) refl, refl, refl)
  copy-Copied (some v) o h = (construct v raw, simp (h.flag, h.holds_value) refl, refl, refl)

  move-Moved : (m : Option A) (o : Optional A) → Holds m o → Moved m o
  unfolding move construct
  move-Moved none o h = (raw, o, simp (h.flag) refl, refl, refl, h)
  move-Moved (some v) o h = (
    construct v raw,
    destroy o v,
    simp (h.flag, h.holds_value) refl,
    refl,
    refl,
    destroy-Holds v o h,
  )

-- An optional that was made empty or of a value does what a value that may be missing does: after any
-- assignments and resets it holds the value last assigned, or is empty behind a reset, it has as many
-- objects as values, and the rest of those that were constructed in it were destroyed once each. A
-- copy of it holds the same value, and a move takes the value and leaves it empty; but the copy of an
-- empty optional, and what is moved out of one, has a flag that was never written.
pub perform_all-left_by {ℓ} :
    {A : Type ℓ} (m : Option A) (ops : List (Op A))
    → (o : Optional A) × (perform_all ops (make m) ≡ some o)
      × Holds (left_by ops m) o
      × Copied (left_by ops m) o
      × Moved (left_by ops m) o
perform_all-left_by m ops =
    let (o, e, h) = perform_all-Holds ops m (make m) (make-Holds m) in
    (o, e, h, copy-Copied (left_by ops m) o h, move-Moved (left_by ops m) o h)
