-- ===== src/GoCache.antt =====
-- The interface of github.com/patrickmn/go-cache, whose code is not in the repository. A cache maps
-- texts to values, each with an optional lifetime. The laws are what its documentation promises of
-- `Get`, `Set` and `Delete`; nothing is said of a read at the very instant of expiry.
pub mod Table
pub mod Reads
use daeil_scholar.Prelude.{ℕ, ◌+◌, ◌≤◌, ◌<◌, ◌≡◌, ◌≢◌, String, Option, none, some}

-- A lifetime in nanoseconds, or `cache.NoExpiration`.
abbrev pub Lifetime : Type 0
Lifetime = Option ℕ

pub record Cache (V : Type 0) : Type 1 where
  pub Table : Type 0
  -- `get c now k`, `set c now k v lifetime` and `delete c k`
  pub get : Table → ℕ → String → Option V
  pub set : Table → ℕ → String → V → Lifetime → Table
  pub delete : Table → String → Table
  pub get-set_live :
      (c : Table) (k : String) (v : V) (now d t : ℕ)
      → 0 < d
      → t < now + d
      → get (set c now k v (some d)) t k ≡ some v
  pub get-set_forever :
      (c : Table) (k : String) (v : V) (now t : ℕ) → get (set c now k v none) t k ≡ some v
  -- A hit at the key of the last write is the value written.
  pub get-set_only :
      (c : Table) (k : String) (v w : V) (now t : ℕ) (d : Lifetime)
      → get (set c now k v d) t k ≡ some w
      → w ≡ v
  pub get-set_ne :
      (c : Table) (k j : String) (v : V) (now t : ℕ) (d : Lifetime)
      → k ≢ j
      → get (set c now k v d) t j ≡ get c t j
  pub get-delete_self : (c : Table) (k : String) (t : ℕ) → get (delete c k) t k ≡ none
  pub get-delete_ne : (c : Table) (k j : String) (t : ℕ) → k ≢ j → get (delete c k) t j ≡ get c t j
