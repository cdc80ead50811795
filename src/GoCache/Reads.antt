-- ===== src/GoCache/Reads.antt =====
-- What a hit shows after a write or a deletion, at any key and any instant.
use daeil_scholar.Prelude.{ℕ, ◌≡◌, ◌≢◌, ◌⊎◌, inl, inr, String, none, some, sym, subst, Text-cases}
use daeil_scholar.GoCache.{Cache, Lifetime}

module _ {V : Type 0} (C : Cache V) where
  pub set-hit :
      (c : C.Table) (k j : String) (v w : V) (now t : ℕ) (d : Lifetime)
      → C.get (C.set c now k v d) t j ≡ some w
      → ((k ≡ j) × (w ≡ v)) ⊎ ((k ≢ j) × (C.get c t j ≡ some w))
  set-hit c k j v w now t d h = elim (Text-cases k j) [
    | inl same ↦ inl (
      same,
      C.get-set_only c k v w now t d
          (subst (λ i. C.get (C.set c now k v d) t i ≡ some w) (sym same) h),
    )
    | inr other ↦ inr (other, cc (C.get-set_ne c k j v now t d other))
  ]

  pub delete-hit :
      (c : C.Table) (k j : String) (w : V) (t : ℕ)
      → C.get (C.delete c k) t j ≡ some w
      → (k ≢ j) × (C.get c t j ≡ some w)
  delete-hit c k j w t h = elim (Text-cases k j) [
    | inl same ↦
        let gone : C.get (C.delete c k) t k ≡ none = C.get-delete_self c k t in
        let there : C.get (C.delete c k) t k ≡ some w =
          subst (λ i. C.get (C.delete c k) t i ≡ some w) (sym same) h in
        absurd (cc)
    | inr other ↦ (other, cc (C.get-delete_ne c k j t other))
  ]
