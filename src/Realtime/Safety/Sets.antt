-- ===== src/Realtime/Safety/Sets.antt =====
-- What holds of all subscribers that the hub's sets hold.
use daeil_scholar.Prelude.{ℕ, List, [], ◌∷◌, arith, All, Bool-cases, inl, inr, ◌==◌, ◌≢◌, subst}
use daeil_scholar.Prelude.Int.{ℤ, eqb_ℤ, eq_of_parts}
use daeil_scholar.Realtime.{find_set, delete_set, delete_subscriber, set_of_left, set_or_empty}

module _ {κ} where
  abbrev pub AllSets : (ℤ → ℕ → Type κ) → List (ℤ × List ℕ) → Type κ
  AllSets P [] = Unit
  AllSets P ((u, set) ∷ m) = All (P u) set × AllSets P m

  pub All-map {ℓ} :
      {A : Type ℓ} (P Q : A → Type κ) (xs : List A) → ((x : A) → P x → Q x) → All P xs → All Q xs
  All-map P Q [] f h = tt
  All-map P Q (x ∷ xs) f (px, h) = (f x px, All-map P Q xs f h)

  pub AllSets-map :
      (P Q : ℤ → ℕ → Type κ) (m : List (ℤ × List ℕ))
      → ((u : ℤ) (p : ℕ) → P u p → Q u p)
      → AllSets P m
      → AllSets Q m
  AllSets-map P Q [] f h = tt
  AllSets-map P Q ((u, set) ∷ m) f (hs, h) =
      (All-map (P u) (Q u) set (f u) hs, AllSets-map P Q m f h)

  pub find_set-All :
      (P : ℤ → ℕ → Type κ) (user : ℤ) (m : List (ℤ × List ℕ))
      → AllSets P m
      → All (P user) (set_or_empty (find_set user m))
  unfolding find_set
  find_set-All P user [] h = tt
  find_set-All P user ((u, set) ∷ m) (hs, h) = elim (Bool-cases (eqb_ℤ u user)) [
    | inl same ↦ rw same (subst (λ v. All (P v) set) (eq_of_parts u user (ground arith)) hs)
    | inr differ ↦ rw differ (find_set-All P user m h)
  ]

  pub delete_set-AllSets :
      (P : ℤ → ℕ → Type κ) (user : ℤ) (m : List (ℤ × List ℕ))
      → AllSets P m
      → AllSets (λ u p. P u p × (u ≢ user)) (delete_set user m)
  unfolding delete_set
  delete_set-AllSets P user [] h = tt
  delete_set-AllSets P user ((u, set) ∷ m) (hs, h) = elim (Bool-cases (eqb_ℤ u user)) [
    | inl same ↦ rw same (delete_set-AllSets P user m h)
    | inr differ ↦ rw differ (
      All-map (P u) (λ p. P u p × (u ≢ user)) set (λ p hp. (hp, λ e. absurd (ground arith))) hs,
      delete_set-AllSets P user m h,
    )
  ]

  pub delete_subscriber-All :
      (P : ℕ → Type κ) (p : ℕ) (set : List ℕ)
      → All P set
      → All (λ q. P q × (q ≢ p)) (delete_subscriber p set)
  unfolding delete_subscriber
  delete_subscriber-All P p [] h = tt
  delete_subscriber-All P p (q ∷ set) (hq, h) = elim (Bool-cases (q == p)) [
    | inl same ↦ rw same (delete_subscriber-All P p set h)
    | inr differ ↦ rw differ ((hq, λ e. absurd (ground arith)), delete_subscriber-All P p set h)
  ]

  pub set_of_left-AllSets :
      (P : ℤ → ℕ → Type κ) (user : ℤ) (set : List ℕ) (m : List (ℤ × List ℕ))
      → All (P user) set
      → AllSets P (delete_set user m)
      → AllSets P (set_of_left user set m)
  set_of_left-AllSets P user [] m hs h = h
  set_of_left-AllSets P user (q ∷ set) m hs h = (hs, h)
