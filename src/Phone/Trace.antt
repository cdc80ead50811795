-- ===== src/Phone/Trace.antt =====
-- The calls of the service and of the clean-up job (`DeleteExpiredBefore`) one after the other.
use daeil_scholar.Prelude.{ℕ, suc, Bool, List, [], ◌∷◌, if◌then◌else◌}
use daeil_scholar.Prelude.Int.{ℤ}
use daeil_scholar.Prelude.Text.{Text}
use daeil_scholar.Phone.Table.{Store, GrantFaults, delete_expired_before}
use daeil_scholar.Phone.{
  Reply, granted, RequestDraws, ConfirmDraws, request_code, confirm_code, assert_phone_verified,
  consume_grant_for_phone, consume_grant_for_member,
}

pub data Op : Type 0 where
  request : Text → ℕ → RequestDraws → Op
  confirm : Text → Text → ℕ → ConfirmDraws → Op
  assert_verified : Text → Text → ℕ → Bool → Op
  consume : Text → Text → ℕ → GrantFaults → Op
  consume_member : Text → Text → ℤ → ℕ → GrantFaults → Op
  clean_up : ℕ → ℕ → Op

module _ (hash render : Text → Text) (review : List (Text × Text)) (members : ℤ → Text → Bool) where
  unfoldable pub apply : Op → Store → Reply × Store
  apply (request phone now d) s = request_code hash render review members phone now d s
  apply (confirm id code now d) s = confirm_code hash render review members id code now d s
  apply (assert_verified token phone now fails) s =
      assert_phone_verified hash render review members token phone now fails s
  apply (consume token phone now f) s =
      consume_grant_for_phone hash render review members token phone now f s
  apply (consume_member token phone user now f) s =
      consume_grant_for_member hash render review members token phone user now f s
  apply (clean_up cutoff now) s = (granted, delete_expired_before cutoff now s)

  unfoldable pub run : List Op → Store → Store
  run [] s = s
  run (o ∷ os) s = run os (apply o s).1

  -- How many calls of a sequence pass a test on the call and its reply.
  unfoldable pub tally : (Op → Reply → Bool) → List Op → Store → ℕ
  tally p [] s = 0
  tally p (o ∷ os) s =
      let rest = tally p os (apply o s).1 in if p o (apply o s).0 then suc rest else rest
