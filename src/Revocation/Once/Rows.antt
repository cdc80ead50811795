-- ===== src/Revocation/Once/Rows.antt =====
-- Changes of rows that forget no revocation.
use daeil_scholar.Prelude.{
  ℕ, ◌+◌, ◌≤◌, ◌≡◌, refl, ap, ◌∙◌, Bool, true, false, Option, none, some, List, [], ◌∷◌, arith,
  if-cases, ◌==◌, if◌then◌else◌,
}
use daeil_scholar.Prelude.Int.{ℤ}
use daeil_scholar.Prelude.Text.{Text}
use daeil_scholar.Revocation.Data.{
  Status, revoked, delivered, finalize_spent, Action, Provider, OutboxRow, set_status,
  update_option, is_disconnect, deliver, release, fail, claim,
}

-- How often the provider agreed to revoke for a row.
abbrev pub calls_of : ℕ → List ℕ → ℕ
calls_of k [] = 0
calls_of k (id ∷ ids) = (if id == k then 1 else 0) + calls_of k ids

abbrev pub is_settled : Status → Bool
is_settled revoked = true
is_settled delivered = true
is_settled finalize_spent = true
is_settled _ = false

-- A row of a disconnect whose provider agreed once at most, and not while the row does not say so.
abbrev pub IsSound : ℕ → Option OutboxRow → Type 0
IsSound n none = n ≤ 1
IsSound n (some r) =
    (is_disconnect r.action ≡ true) × (n ≤ 1) × (is_settled r.status ≡ false → n ≡ 0)

-- A change of rows that forgets no revocation.
abbrev pub IsKeeping : (OutboxRow → OutboxRow) → Type 0
IsKeeping f =
    (r : OutboxRow)
    → ((f r).action ≡ r.action) × (is_settled (f r).status ≡ false → is_settled r.status ≡ false)

pub keeps_row :
    (n : ℕ) (f : OutboxRow → OutboxRow) (o : Option OutboxRow)
    → IsKeeping f
    → IsSound n o
    → IsSound n (update_option f o)
keeps_row n f none h s = s
keeps_row n f (some r) h s =
    (ap is_disconnect (h r).0 ∙ s.0, s.1, λ unsettled. s.2 ((h r).1 unsettled))

IsKeeping-if :
    (f : OutboxRow → OutboxRow) (test : OutboxRow → Bool)
    → IsKeeping f
    → IsKeeping (λ r. if test r then f r else r)
IsKeeping-if f test h r =
    if-cases
      (λ (x : OutboxRow).
        (x.action ≡ r.action) × (is_settled x.status ≡ false → is_settled r.status ≡ false))
      (test r) _ _ (λ _. h r) (λ _. (refl, λ u. u))

pub deliver-IsKeeping :
    (user : ℤ) (p : Provider) (is_action : Action → Bool) (now : ℕ)
    → IsKeeping (deliver user p is_action now)
deliver-IsKeeping user p is_action now =
    IsKeeping-if (set_status delivered now) _ (λ r. (refl, λ u. cc))

pub release-IsKeeping : (token : Text) (now : ℕ) → IsKeeping (release token now)
release-IsKeeping token now =
    IsKeeping-if (λ r. record r { claim_token = none; updated_at = now }) _ (λ r. (refl, λ u. u))

pub claim-IsKeeping : (token : Text) (stale now : ℕ) → IsKeeping (claim token stale now)
claim-IsKeeping token stale now =
    IsKeeping-if (λ r. record r { claim_token = some token; updated_at = now }) _
      (λ r. (refl, λ u. u))

pub fail_revoked-IsKeeping :
    (n max next : ℕ) (token : Text) (now : ℕ) → IsKeeping (fail n max next revoked token now)
fail_revoked-IsKeeping n max next token now r = ground arith
