-- ===== src/GoCache/Table.antt =====
-- A cache that keeps the laws: a function from texts to values with the instant at which they end.
use daeil_scholar.Prelude.{
  ℕ, ◌+◌, ◌<◌, ◌≡◌, ◌≢◌, String, Option, none, some, arith, ltb, str_eq, str_eq_iff, if◌then◌else◌,
}
use daeil_scholar.GoCache.{Cache, Lifetime}

module _ (V : Type 0) where
  abbrev Slots : Type 0
  Slots = String → Option (V × Option ℕ)

  abbrev alive : Option (V × Option ℕ) → ℕ → Option V
  alive none t = none
  alive (some (v, none)) t = some v
  alive (some (v, some stop)) t = if ltb t stop then some v else none

  abbrev stop_at : ℕ → Lifetime → Option ℕ
  stop_at now none = none
  stop_at now (some d) = some (now + d)

  abbrev table_get : Slots → ℕ → String → Option V
  table_get c t k = alive (c k) t

  abbrev table_set : Slots → ℕ → String → V → Lifetime → Slots
  table_set c now k v d j = if str_eq k j then some (v, stop_at now d) else c j

  abbrev table_delete : Slots → String → Slots
  table_delete c k j = if str_eq k j then none else c j

  pub set_live :
      (c : Slots) (k : String) (v : V) (now d t : ℕ)
      → 0 < d
      → t < now + d
      → table_get (table_set c now k v (some d)) t k ≡ some v
  set_live c k v now d t p q = ground (arith, str_eq_iff k k)

  pub set_forever :
      (c : Slots) (k : String) (v : V) (now t : ℕ)
      → table_get (table_set c now k v none) t k ≡ some v
  set_forever c k v now t = ground (arith, str_eq_iff k k)

  pub set_only :
      (c : Slots) (k : String) (v w : V) (now t : ℕ) (d : Lifetime)
      → table_get (table_set c now k v d) t k ≡ some w
      → w ≡ v
  set_only c k v w now t none h = ground (arith, str_eq_iff k k)
  set_only c k v w now t (some d) h = ground (arith, str_eq_iff k k)

  pub set_ne :
      (c : Slots) (k j : String) (v : V) (now t : ℕ) (d : Lifetime)
      → k ≢ j
      → table_get (table_set c now k v d) t j ≡ table_get c t j
  set_ne c k j v now t d h = ground (arith, str_eq_iff k j)

  pub delete_self : (c : Slots) (k : String) (t : ℕ) → table_get (table_delete c k) t k ≡ none
  delete_self c k t = ground (arith, str_eq_iff k k)

  pub delete_ne :
      (c : Slots) (k j : String) (t : ℕ)
      → k ≢ j
      → table_get (table_delete c k) t j ≡ table_get c t j
  delete_ne c k j t h = ground (arith, str_eq_iff k j)

  abbrev pub table : Cache V
  table = record {
    Table = Slots;
    get = table_get;
    set = table_set;
    delete = table_delete;
    get-set_live = set_live;
    get-set_forever = set_forever;
    get-set_only = set_only;
    get-set_ne = set_ne;
    get-delete_self = delete_self;
    get-delete_ne = delete_ne;
  }

  abbrev pub no_values : Slots
  no_values _ = none
