-- ===== src/Libk/Optional.antt =====
-- kernel/libcppk/optional.hpp. `none` is a read of a flag that nothing was stored in, or an access to
-- an object that does not live.
pub mod Laws
mod Tests
use java_script_os.Base.{ℕ, ◌+◌, Bool, true, false, Option, none, some, ◌>>=◌}

-- `storage` is the object that lives in the storage, `initialized` is `none` when it is indeterminate;
-- the rest counts the objects that were constructed in the storage, and those destroyed.
pub record Optional {ℓ} (A : Type ℓ) : Type ℓ where
  pub storage : Option A
  pub initialized : Option Bool
  pub constructed : ℕ
  pub destroyed : ℕ

module _ {ℓ} {A : Type ℓ} where
  -- the memory of an optional before its constructor
  abbrev pub raw : Optional A
  raw = record { storage = none; initialized = none; constructed = 0; destroyed = 0 }

  -- `construct`
  unfoldable pub construct : A → Optional A → Optional A
  construct new_value o = record {
    storage = some new_value;
    initialized = some true;
    constructed = o.constructed + 1;
    destroyed = o.destroyed;
  }

  -- `optional()`
  unfoldable pub empty : Optional A
  empty = record raw { initialized = some false }

  -- `optional(value)`
  unfoldable pub of_value : A → Optional A
  unfolding construct
  of_value value = construct value raw

  -- `has_value`
  abbrev pub has_value : Optional A → Option Bool
  has_value o = o.initialized

  -- `value`
  abbrev pub value : Optional A → Option A
  value o = o.storage

  -- the call of the destructor of the object, and `initialized = false`
  unfoldable pub destroy : Optional A → A → Optional A
  destroy o old = record {
    storage = none;
    initialized = some false;
    constructed = o.constructed;
    destroyed = o.destroyed + 1;
  }

  -- `reset`, which is also the destructor
  unfoldable pub reset : Optional A → Option (Optional A)
  unfolding destroy
  reset o = o.initialized >>= λ (b : Bool). elim b [
    | true ↦ o.storage >>= λ (old : A). some (destroy o old)
    | false ↦ some o
  ]

  -- `optional(const optional&)`
  unfoldable pub copy : Optional A → Option (Optional A)
  unfolding construct
  copy other = other.initialized >>= λ (b : Bool). elim b [
    | true ↦ other.storage >>= λ (v : A). some (construct v raw)
    | false ↦ some raw
  ]

  -- `optional(optional&&)`, with what is left of the other one
  unfoldable pub move : Optional A → Option (Optional A × Optional A)
  unfolding construct reset
  move other = other.initialized >>= λ (b : Bool). elim b [
    | true ↦ other.storage >>= λ (v : A).
        reset other >>= λ (left : Optional A). some (construct v raw, left)
    | false ↦ some (raw, other)
  ]

  -- the assignment of a value
  unfoldable pub assign : A → Optional A → Option (Optional A)
  unfolding construct
  assign new_value o = o.initialized >>= λ (b : Bool). elim b [
    | true ↦ o.storage >>= λ (old : A). some (record o { storage = some new_value })
    | false ↦ some (construct new_value o)
  ]
