-- ===== src/SocialLink/Lookup.antt =====
-- How the methods of the token store read the cache: what a successful lookup shows, and how a
-- property of the store passes through the early returns.
use daeil_scholar.Prelude.{ℕ, ◌<◌, ◌≡◌, refl, String, true, Option, none, some, arith}
use daeil_scholar.GoCache.{Cache}
use daeil_scholar.SocialLink.{
  Entry, Value, entry_value, foreign, Status, ready, processing, consumed, cancelled, Error,
  Outcome, ok, err, panic, Store, Lease, LeaseId, available, check_entry, entry, check_lease,
  leased_entry, on_entry, on_available, option_eq,
}

pub option_eq_lem : (a b : Option ℕ) → option_eq a b ≡ true → a ≡ b
option_eq_lem none none h = refl
option_eq_lem none (some y) h = cc
option_eq_lem (some x) none h = cc
option_eq_lem (some x) (some y) h = ground arith

pub option_eq_self : (a : Option ℕ) → option_eq a a ≡ true
option_eq_self none = refl
option_eq_self (some x) = ground arith

pub available-none : (st : Status) → available st ≡ none → st ≡ ready
unfolding available
available-none ready h = refl
available-none processing h = cc
available-none consumed h = cc
available-none cancelled h = cc

module _ (C : Cache Value) where
  check_entry-ok :
      (now : ℕ) (v : Option Value) (e : Entry)
      → check_entry C now v ≡ ok e
      → (v ≡ some (entry_value e)) × (now < e.expires_at)
  unfolding check_entry
  check_entry-ok now none e h = cc
  check_entry-ok now (some foreign) e h = cc
  check_entry-ok now (some (entry_value x)) e h = ground arith

  pub entry-ok :
      (s : Store C) (now : ℕ) (token : String) (e : Entry)
      → entry C s now token ≡ ok e
      → (C.get s.cache now token ≡ some (entry_value e)) × (now < e.expires_at)
  unfolding entry
  entry-ok s now token e h = check_entry-ok now (C.get s.cache now token) e h

  check_lease-ok :
      (id : LeaseId) (v : Option Value) (e : Entry)
      → check_lease C id v ≡ ok e
      → (v ≡ some (entry_value e)) × (e.status ≡ processing) × (e.lease_id ≡ id)
  unfolding check_lease
  check_lease-ok id none e h = cc
  check_lease-ok id (some foreign) e h = cc
  check_lease-ok id (some (entry_value x)) e h = ground (arith, option_eq_lem x.lease_id id)

  pub leased_entry-ok :
      (s : Store C) (now : ℕ) (lease : Lease) (e : Entry)
      → leased_entry C s now lease ≡ ok e
      → (C.get s.cache now lease.token ≡ some (entry_value e))
        × (e.status ≡ processing)
        × (e.lease_id ≡ lease.id)
  unfolding leased_entry
  leased_entry-ok s now lease e h = check_lease-ok lease.id (C.get s.cache now lease.token) e h

  pub on_entry_keeps {κ} :
      (P : Store C → Type κ) {A : Type 0} (m : Outcome Entry) (s : Store C)
      (k : Entry → Outcome A × Store C)
      → P s
      → ((e : Entry) → m ≡ ok e → P (k e).1)
      → P (on_entry C m s k).1
  on_entry_keeps P (ok e) s k p q = q e refl
  on_entry_keeps P (err x) s k p q = p
  on_entry_keeps P panic s k p q = p

  pub on_available_keeps {κ} :
      (P : Store C → Type κ) {A : Type 0} (o : Option Error) (s : Store C) (r : Outcome A × Store C)
      → P s
      → (o ≡ none → P r.1)
      → P (on_available C o s r).1
  on_available_keeps P none s r p q = q refl
  on_available_keeps P (some x) s r p q = p

  -- A call that succeeds found an entry that is available.
  pub on_entry-ok :
      {A : Type 0} (m : Outcome Entry) (s : Store C) (k : Entry → Outcome A × Store C) {x : A}
      → (on_entry C m s k).0 ≡ ok x
      → (e : Entry) × (m ≡ ok e) × (on_entry C m s k ≡ k e)
  on_entry-ok (ok e) s k h = (e, refl, refl)
  on_entry-ok (err x) s k h = absurd (cc)
  on_entry-ok panic s k h = absurd (cc)

  pub on_available-ok :
      {A : Type 0} (o : Option Error) (s : Store C) (r : Outcome A × Store C) {x : A}
      → (on_available C o s r).0 ≡ ok x
      → (o ≡ none) × (on_available C o s r ≡ r)
  on_available-ok none s r h = (refl, refl)
  on_available-ok (some x) s r h = absurd (cc)
