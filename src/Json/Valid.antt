-- ===== src/Json/Valid.antt =====
-- JSON values (crates/anago-core/src/json.rs): which are those that the program can hold, how deep
-- they nest, and the fuel that reading them takes.
use anago.Prelude.{ℕ, suc, ◌+◌, Distinct, list_eq, nat_eq, if◌then◌else◌, ltb}
use anago.Prelude.I64.{IsI64}
use anago.Json.{Value, null, bool, int, str, arr, obj, Items, nil, cons, Fields, end, field}
use anago.Json.Objects.{keys}

-- Integers in the range of `i64`, and objects without a repeated key.
abbrev mutual
  pub WellFormed : Value → Type 0
  WellFormed null = Unit
  WellFormed (bool b) = Unit
  WellFormed (int n) = IsI64 n
  WellFormed (str s) = Unit
  WellFormed (arr vs) = WellFormedItems vs
  WellFormed (obj fs) = Distinct (keys fs) × WellFormedFields fs

  pub WellFormedItems : Items → Type 0
  WellFormedItems nil = Unit
  WellFormedItems (cons v vs) = WellFormed v × WellFormedItems vs

  pub WellFormedFields : Fields → Type 0
  WellFormedFields end = Unit
  WellFormedFields (field k v fs) = WellFormed v × WellFormedFields fs

abbrev pub max : ℕ → ℕ → ℕ
max a b = if ltb a b then b else a

-- The arrays and objects around the deepest value.
abbrev mutual
  pub nesting : Value → ℕ
  nesting null = 0
  nesting (bool b) = 0
  nesting (int n) = 0
  nesting (str s) = 0
  nesting (arr vs) = nesting_items vs
  nesting (obj fs) = nesting_fields fs

  pub nesting_items : Items → ℕ
  nesting_items nil = 0
  nesting_items (cons v vs) = max (suc (nesting v)) (nesting_items vs)

  pub nesting_fields : Fields → ℕ
  nesting_fields end = 0
  nesting_fields (field k v fs) = max (suc (nesting v)) (nesting_fields fs)

abbrev mutual
  pub cost : Value → ℕ
  cost null = 1
  cost (bool b) = 1
  cost (int n) = 1
  cost (str s) = 1
  cost (arr vs) = suc (cost_items vs)
  cost (obj fs) = suc (cost_fields fs)

  pub cost_items : Items → ℕ
  cost_items nil = 0
  cost_items (cons v vs) = suc (cost v + cost_items vs)

  pub cost_fields : Fields → ℕ
  cost_fields end = 0
  cost_fields (field k v fs) = suc (cost v + cost_fields fs)
