-- ===== src/AppUpdate/Gate.antt =====
-- The gate in front of every API request: backend/internal/middleware/client_app_headers.go and
-- app_version_gate.go.
use daeil_scholar.Prelude.{
  ℕ, ◌+◌, ◌≡◌, ◌↔◌, refl, inl, inr, Bool, false, not, ◌&&◌, ◌||◌, Option, none, some, List, [], ◌∷◌,
  map, arith, leb, ltb, if◌then◌else◌, Bool-cases, Option-cases,
}
use daeil_scholar.Prelude.Int.{ℤ, pos, leb_ℤ, ◌≤ℤ◌}
use daeil_scholar.Prelude.Text.{Text, codes, text_eq, trim_space, parse_int}
use daeil_scholar.AppUpdate.{
  Policy, Decision, none_needed, recommend, force, unsupported_os, evaluate_app_update,
}
use daeil_scholar.AppUpdate.Validation.{is_supported_app_platform, validate_app_update_policy}
use daeil_scholar.AppUpdate.Validation.Lockout.{accepted-none_needed}

-- The request as the gate reads it; an absent header is the empty text.
pub record Request : Type 0 where
  pub path : Text
  pub app_platform : Text
  pub app_build : Text
  pub app_version : Text
  pub app_os_version : Text

pub record Headers : Type 0 where
  pub platform : Text
  pub build : ℤ
  pub version_name : Text
  pub os_version : Text

abbrev pub exempt_paths : List Text
exempt_paths =
    codes "/api/mobile/telemetry"
    ∷ codes "/api/health"
    ∷ codes "/api/settings/public"
    ∷ codes "/api/auth/logout"
    ∷ codes "/api/auth/logout/deferred"
    ∷ codes "/api/auth/logout/all/deferred"
    ∷ codes "/api/auth/logout/all"
    ∷ []

abbrev pub is_member : Text → List Text → Bool
is_member t [] = false
is_member t (u ∷ us) = text_eq u t || is_member t us

unfoldable pub is_exempt : Text → Bool
is_exempt path = is_member path exempt_paths

pub data Verdict : Type 0 where
  pass upgrade_required : Verdict

abbrev pub verdict : Decision → Verdict
verdict force = upgrade_required
verdict _ = pass

verdict-force : (d : Decision) → verdict d ≡ upgrade_required → d ≡ force
verdict-force force h = refl
verdict-force none_needed h = cc
verdict-force recommend h = cc
verdict-force unsupported_os h = cc

-- `other_lower` is `unicode.ToLower` beyond ASCII, a table of the Unicode standard.
module _ (other_lower : ℕ → ℕ) where
  abbrev pub to_lower : ℕ → ℕ
  to_lower c = if ltb c 128 then (if leb b'A' c && leb c b'Z' then c + 32 else c) else other_lower c

  abbrev pub with_build : Text → Request → Option ℤ → Option Headers
  with_build platform r none = none
  with_build platform r (some build) =
      if leb_ℤ build (pos 0)
      then none
      else some (record {
        platform = platform;
        build = build;
        version_name = r.app_version;
        os_version = r.app_os_version;
      })

  unfoldable pub read_client_app_headers : Request → Option Headers
  read_client_app_headers r =
      let platform = map to_lower (trim_space r.app_platform) in
      if not (is_supported_app_platform platform)
      then none
      else with_build platform r (parse_int (trim_space r.app_build))

  -- `policies` is `GetPolicy`; its error is `none`.
  module _ (policies : Text → Option Policy) where
    abbrev pub gate_policy : Headers → Option Policy → Verdict
    gate_policy h none = pass
    gate_policy h (some p) = verdict (evaluate_app_update p h.build h.os_version)

    abbrev pub gate_headers : Option Headers → Text → Verdict
    gate_headers none path = pass
    gate_headers (some h) path =
        if is_exempt path then pass else gate_policy h (policies h.platform)

    unfoldable pub app_version_gate : Request → Verdict
    app_version_gate r = gate_headers (read_client_app_headers r) r.path

    gate_policy-blocks :
        (h : Headers) (o : Option Policy)
        → gate_policy h o ≡ upgrade_required
        → (p : Policy) × (o ≡ some p) × (evaluate_app_update p h.build h.os_version ≡ force)
    gate_policy-blocks h none b = absurd (cc)
    gate_policy-blocks h (some p) b =
        (p, refl, verdict-force (evaluate_app_update p h.build h.os_version) b)

    gate_headers-blocks :
        (o : Option Headers) (path : Text)
        → gate_headers o path ≡ upgrade_required
        → (h : Headers) × (o ≡ some h)
          × (is_exempt path ≡ false)
          × (gate_policy h (policies h.platform) ≡ upgrade_required)
    gate_headers-blocks none path b = absurd (cc)
    gate_headers-blocks (some h) path b = (h, refl, ground arith, ground arith)

    -- The gate turns a request away exactly when it came with usable headers, on a path that is not
    -- exempt, under a policy that could be read, and that policy forces the update.
    pub app_version_gate_lem :
        (r : Request)
        → (app_version_gate r ≡ upgrade_required)
          ↔ (h : Headers) × (p : Policy) × (read_client_app_headers r ≡ some h)
            × (is_exempt r.path ≡ false)
            × (policies h.platform ≡ some p)
            × (evaluate_app_update p h.build h.os_version ≡ force)
    unfolding app_version_gate
    app_version_gate_lem r = (
      λ b.
          let (h, read, gated, at) = gate_headers-blocks (read_client_app_headers r) r.path b in
          let (p, found, forced) = gate_policy-blocks h (policies h.platform) at in
          (h, p, read, gated, found, forced),
      λ (h, p, read, gated, found, forced). rw (read, gated, found, forced),
    )

    -- If every policy in force was accepted for its platform without the confirmation for unobserved
    -- builds, a client on the highest observed build of its platform, or a newer one, always passes.
    pub app_version_gate-newest :
        (latest : Text → ℤ) (r : Request) (h : Headers)
        → ((platform : Text) (p : Policy)
            → policies platform ≡ some p
            → validate_app_update_policy platform p (latest platform) false ≡ [])
        → read_client_app_headers r ≡ some h
        → latest h.platform ≤ℤ h.build
        → app_version_gate r ≡ pass
    unfolding app_version_gate
    app_version_gate-newest latest r h accepted read newest = elim (Bool-cases (is_exempt r.path)) [
      | inl exempt ↦ rw (read, exempt)
      | inr gated ↦ elim (Option-cases (policies h.platform)) [
        | inl missing ↦ rw (read, gated, missing)
        | inr (p, found) ↦ rw (
          read,
          gated,
          found,
          accepted-none_needed h.platform p (latest h.platform) h.build h.os_version
              (accepted h.platform p found) newest,
        )
      ]
    ]
