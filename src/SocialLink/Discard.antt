-- ===== src/SocialLink/Discard.antt =====
-- The goroutine that `cleanup` of backend/internal/service/social_link_token_store.go starts for
-- each discarded upload. Times are in nanoseconds, as `time.Duration` is.
use daeil_scholar.Prelude.{
  ℕ, ◌+◌, ◌*◌, ◌≤◌, ◌≡◌, Bool, true, false, Option, none, some, List, [], ◌∷◌, arith, if◌then◌else◌,
}

abbrev second : ℕ
second = 1_000_000_000

abbrev retry_delays : List ℕ
retry_delays = 0 ∷ second ∷ (5 * second) ∷ (30 * second) ∷ []

-- The loop over the delays: sleep, try, stop at the first success. `works at` tells whether the
-- discarder returns nil when it is called `at` after the start; calls take no time themselves.
retry : List ℕ → ℕ → (ℕ → Bool) → Option ℕ
retry [] elapsed works = none
retry (delay ∷ delays) elapsed works =
    let rest = retry delays (elapsed + delay) works in
    if works (elapsed + delay) then some (elapsed + delay) else rest

discard_with_retries : (ℕ → Bool) → Option ℕ
unfolding retry
discard_with_retries works = retry retry_delays 0 works

-- The loop stops at the first success: it ends with the instant of a call that worked, and it gives
-- up only if the discarder failed at 0, 1, 6 and 36 seconds.
discard_with_retries_lem :
    (works : ℕ → Bool)
    → ((t : ℕ) → discard_with_retries works ≡ some t → (works t ≡ true) × (t ≤ 36 * second))
      × (discard_with_retries works ≡ none
          → (works 0 ≡ false)
            × (works second ≡ false)
            × (works (6 * second) ≡ false)
            × (works (36 * second) ≡ false))
unfolding discard_with_retries
discard_with_retries_lem works = (λ t h. ground arith, λ h. ground arith)
