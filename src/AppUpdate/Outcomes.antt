-- ===== src/AppUpdate/Outcomes.antt =====
-- What EvaluateAppUpdate of backend/internal/service/app_update_evaluator.go decides, and how the
-- versions of the operating system compare.
use daeil_scholar.Prelude.{◌≡◌, ◌≢◌, ◌↔◌, ◌⊎◌, inl, inr, true, false, none, arith, Bool-cases}
use daeil_scholar.Prelude.Int.{ℤ, pos, ◌<ℤ◌, ◌≤ℤ◌, leb_ℤ, eqb_ℤ, eq_of_parts}
use daeil_scholar.Prelude.Text.{Text}
use daeil_scholar.AppUpdate.{
  Policy, none_needed, recommend, force, unsupported_os, OsVersion, parse_os_version, version_below,
  is_os_version_below, needs_force, evaluate_app_update,
}

-- The build is below an enabled threshold.
abbrev pub IsForced : Policy → ℤ → Type 0
IsForced p b = (p.force_enabled ≡ true) × (pos 0 <ℤ p.min_build) × (b <ℤ p.min_build)

abbrev pub IsAdvised : Policy → ℤ → Type 0
IsAdvised p b =
    (p.recommend_enabled ≡ true) × (pos 0 <ℤ p.recommended_build) × (b <ℤ p.recommended_build)

-- The four outcomes, each exactly when: a known build is forced if it is below the enforced minimum
-- and its system is not too old, advised if it is below the recommended build alone and its system
-- is not too old, and told that its system is unsupported if it is below either and its system is
-- too old. Nothing is said in exactly the other cases.
pub evaluate_app_update_lem :
    (p : Policy) (b : ℤ) (os : Text)
    → (evaluate_app_update p b os ≡ force
        ↔ (pos 0 <ℤ b) × IsForced p b × (is_os_version_below os p.min_os_version ≡ false))
      × (evaluate_app_update p b os ≡ recommend
          ↔ (pos 0 <ℤ b)
            × (¬ IsForced p b)
            × IsAdvised p b
            × (is_os_version_below os p.min_os_version ≡ false))
      × (evaluate_app_update p b os ≡ unsupported_os
          ↔ (pos 0 <ℤ b)
            × (IsForced p b ⊎ IsAdvised p b)
            × (is_os_version_below os p.min_os_version ≡ true))
      × (evaluate_app_update p b os ≡ none_needed
          ↔ (b ≤ℤ pos 0) ⊎ ((¬ IsForced p b) × (¬ IsAdvised p b)))
unfolding evaluate_app_update
evaluate_app_update_lem p b os = (
  (λ h. ground arith, λ h. ground arith),
  (
    λ h.
        (ground arith, λ f. ground arith, (ground arith, ground arith, ground arith), ground arith),
    λ h. ground arith,
  ),
  (
    λ h. (
      ground arith,
      elim (Bool-cases (needs_force p b)) [
        | inl f ↦ inl (ground arith, ground arith, ground arith)
        | inr n ↦ inr (ground arith, ground arith, ground arith)
      ],
      ground arith,
    ),
    λ h. ground arith,
  ),
  (
    λ h. elim (Bool-cases (leb_ℤ b (pos 0))) [
      | inl unknown ↦ inl (ground arith)
      | inr known ↦ inr (λ f. ground arith, λ a. ground arith)
    ],
    λ h. ground arith,
  ),
)

-- A newer build of the same client is never treated worse than an older one of positive number: where the older one is told nothing the
-- newer one is told nothing, and where the newer one is forced the older one is forced too.
pub evaluate_app_update_mono :
    (p : Policy) (b c : ℤ) (os : Text)
    → pos 0 <ℤ b
    → b ≤ℤ c
    → (evaluate_app_update p b os ≡ none_needed → evaluate_app_update p c os ≡ none_needed)
      × (evaluate_app_update p c os ≡ force → evaluate_app_update p b os ≡ force)
unfolding evaluate_app_update
evaluate_app_update_mono p b c os known newer = (λ h. ground arith, λ h. ground arith)

-- A version that does not parse, of the device or of the policy, never makes a system unsupported.
pub evaluate_app_update_fail_open :
    (p : Policy) (b : ℤ) (os : Text)
    → (parse_os_version os ≡ none) ⊎ (parse_os_version p.min_os_version ≡ none)
    → evaluate_app_update p b os ≢ unsupported_os
unfolding evaluate_app_update is_os_version_below
evaluate_app_update_fail_open p b os h = ground arith

-- The first segment that differs is smaller.
abbrev IsSmaller : OsVersion → OsVersion → Type 0
IsSmaller u v =
    (u.major <ℤ v.major)
    ⊎ ((u.major ≤ℤ v.major) × (u.minor <ℤ v.minor))
    ⊎ ((u.major ≤ℤ v.major) × (u.minor ≤ℤ v.minor) × (u.patch <ℤ v.patch))

below-IsSmaller : (u v : OsVersion) → version_below u v ≡ true → IsSmaller u v
unfolding version_below
below-IsSmaller u v h = elim (Bool-cases (eqb_ℤ u.major v.major)) [
  | inl same ↦ elim (Bool-cases (eqb_ℤ u.minor v.minor)) [
    | inl also ↦ inr (inr (ground arith, ground arith, ground arith))
    | inr differ ↦ inr (inl (ground arith, ground arith))
  ]
  | inr differ ↦ inl (ground arith)
]

abbrev IsSame : OsVersion → OsVersion → Type 0
IsSame u v =
    (v.major ≤ℤ u.major)
    × (v.minor ≤ℤ u.minor)
    × (v.patch ≤ℤ u.patch)
    × (u.major ≤ℤ v.major)
    × (u.minor ≤ℤ v.minor)
    × (u.patch ≤ℤ v.patch)

not_below : (u v : OsVersion) → version_below u v ≡ false → IsSmaller v u ⊎ IsSame u v
unfolding version_below
not_below u v h = elim (Bool-cases (eqb_ℤ u.major v.major)) [
  | inl same ↦ elim (Bool-cases (eqb_ℤ u.minor v.minor)) [
    | inl also ↦ elim (Bool-cases (eqb_ℤ u.patch v.patch)) [
      | inl all ↦
          inr (ground arith, ground arith, ground arith, ground arith, ground arith, ground arith)
      | inr differ ↦ inl (inr (inr (ground arith, ground arith, ground arith)))
    ]
    | inr differ ↦ inl (inr (inl (ground arith, ground arith)))
  ]
  | inr differ ↦ inl (inl (ground arith))
]

version_below_trans :
    (u v w : OsVersion)
    → version_below u v ≡ true
    → version_below v w ≡ true
    → version_below u w ≡ true
version_below_trans u v w h k = elim (Bool-cases (version_below u w)) [
  | inl smaller ↦ smaller
  | inr not_smaller ↦
      absurd
        (omega (arith, below-IsSmaller u v h, below-IsSmaller v w k, not_below u w not_smaller))
]

version_below_total :
    (u v : OsVersion) → version_below u v ≡ false → version_below v u ≡ false → u ≡ v
version_below_total u v h k =
    let major : u.major ≡ v.major =
      eq_of_parts u.major v.major (omega (arith, not_below u v h, not_below v u k)) in
    let minor : u.minor ≡ v.minor =
      eq_of_parts u.minor v.minor (omega (arith, not_below u v h, not_below v u k)) in
    let patch : u.patch ≡ v.patch =
      eq_of_parts u.patch v.patch (omega (arith, not_below u v h, not_below v u k)) in
    λ i. record { major = major i; minor = minor i; patch = patch i }

-- The first segment that differs, if any, is smaller.
abbrev pub IsBelow : OsVersion → OsVersion → Type 0
IsBelow u v =
    (u.major <ℤ v.major)
    ⊎ ((u.major ≡ v.major) × (u.minor <ℤ v.minor))
    ⊎ ((u.major ≡ v.major) × (u.minor ≡ v.minor) × (u.patch <ℤ v.patch))

eqb→eq : (a b : ℤ) → eqb_ℤ a b ≡ true → a ≡ b
eqb→eq a b h = eq_of_parts a b (ground arith)

version_below-IsBelow : (u v : OsVersion) → version_below u v ≡ true → IsBelow u v
unfolding version_below
version_below-IsBelow u v h = elim (Bool-cases (eqb_ℤ u.major v.major)) [
  | inl same ↦ elim (Bool-cases (eqb_ℤ u.minor v.minor)) [
    | inl also ↦ inr (inr (eqb→eq u.major v.major same, eqb→eq u.minor v.minor also, ground arith))
    | inr differ ↦ inr (inl (eqb→eq u.major v.major same, ground arith))
  ]
  | inr differ ↦ inl (ground arith)
]

IsBelow-version_below : (u v : OsVersion) → IsBelow u v → version_below u v ≡ true
unfolding version_below
IsBelow-version_below u v (inl smaller) = ground arith
IsBelow-version_below u v (inr (inl (same, smaller))) = ground arith
IsBelow-version_below u v (inr (inr (same, also, smaller))) = ground arith

-- A version is below another exactly when the first segment that differs is smaller. This is a
-- strict order of versions: none is below itself, the order is transitive, and two versions neither
-- of which is below the other are the same.
pub version_below-order :
    (u v w : OsVersion)
    → (version_below u v ≡ true ↔ IsBelow u v)
      × (version_below u u ≡ false)
      × (version_below u v ≡ true → version_below v w ≡ true → version_below u w ≡ true)
      × (version_below u v ≡ false → version_below v u ≡ false → u ≡ v)
unfolding version_below
version_below-order u v w = (
  (version_below-IsBelow u v, IsBelow-version_below u v),
  ground arith,
  version_below_trans u v w,
  version_below_total u v,
)
