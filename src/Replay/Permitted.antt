-- ===== src/Replay/Permitted.antt =====
-- When a request may be sent again, and when the bodies of two responses match.
use lens.Prelude.{
  Bool, true, false, not, ◌&&◌, ◌||◌, ◌++◌, ◌≡◌, ◌≢◌, ◌↔◌, ◌⊎◌, refl, ap, sym, subst, Bool-cases,
  inl, inr, Option, none, some, arith,
}
use lens.Replay.Guard.{
  ReplayPlan, ReplayPolicy, CapturedResponse, parse_target_origin, is_loopback_target, target_url,
  validate_execution,
}
use lens.Replay.Packages.{Packages, Uri}
use lens.Replay.Plan.{matching, compare_body, compare_response}
use lens.Text.{Bytes, str, eq_bytes, eq_bytes_iff}
use lens.Text.Result.{Result-cases, ok}
use lens.Replay.Targets.{
  refuse_if-ok, ok_injective, IsOrigin, IsLocal, unless_allowed, forbidden_unless_allowed,
  redacted_iff, is_safe_iff, is_loopback_host_iff, target-IsOriginOf, IsOrigin-target,
}

-- What may be sent to a target under a policy, and to which URL.
abbrev pub Permitted : Packages → ReplayPlan → Bytes → ReplayPolicy → Bytes → Type 0
Permitted packages plan target policy url =
    (uri : Uri) × (scheme : Bytes) × (authority : Bytes) × (packages.parse_uri target ≡ some uri)
    × IsOrigin uri scheme authority
    × (IsLocal packages uri ⊎ (policy.allow_remote ≡ true))
    × (plan.truncated ≡ false)
    × (plan.legacy_text_encoding ≡ false)
    × ((plan.sensitivity ≢ str "secret") ⊎ (policy.allow_secrets ≡ true))
    × ((plan.was_redacted ≡ false) ⊎ (policy.allow_redacted ≡ true))
    × (((plan.method ≡ str "GET") ⊎ ((plan.method ≡ str "HEAD") ⊎ (plan.method ≡ str "OPTIONS")))
        ⊎ (policy.allow_unsafe ≡ true))
    × (url ≡ scheme ++ (str "://" ++ (authority ++ plan.path_and_query)))

module _ (packages : Packages) (plan : ReplayPlan) (target : Bytes) (policy : ReplayPolicy) where
  abbrev IsLocalOrAllowed : Uri → Type 0
  IsLocalOrAllowed uri = (not (is_loopback_target packages uri) && not policy.allow_remote) ≡ false

  validate_execution-Permitted :
      (url : Bytes)
      → validate_execution packages plan target policy ≡ ok url
      → Permitted packages plan target policy url
  unfolding validate_execution
  validate_execution-Permitted url h = elim (Result-cases (parse_target_origin packages target)) [
    | inr (reason, e) ↦ cc (rw (e, validate_execution) at h)
    | inl (origin, e) ↦
        let (a, h1) = refuse_if-ok _ _ _ url (rw (e, validate_execution) at h) in
        let (b, h2) = refuse_if-ok _ _ _ url h1 in
        let (c, h3) = refuse_if-ok _ _ _ url h2 in
        let (d, h4) = refuse_if-ok _ _ _ url h3 in
        let (f, h5) = refuse_if-ok _ _ _ url h4 in
        let (g, h6) = refuse_if-ok _ _ _ url h5 in
        let (uri, read, origin_of) = target-IsOriginOf packages target origin e in
        let (same, scheme, http, authority, free, path) = origin_of in
        let local = subst IsLocalOrAllowed (sym same) a in
        (
          uri,
          origin.scheme,
          origin.authority,
          read,
          (scheme, http, authority, free, path),
          (unless_allowed _ _ (is_loopback_host_iff packages uri.host)).0 local,
          b,
          c,
          (forbidden_unless_allowed _ _ (eq_bytes_iff plan.sensitivity (str "secret"))).0 d,
          (redacted_iff _ _).0 f,
          (unless_allowed _ _ (is_safe_iff plan.method)).0 g,
          sym (ok_injective _ url h6),
        )
  ]

  Permitted-validate_execution :
      (url : Bytes)
      → Permitted packages plan target policy url
      → validate_execution packages plan target policy ≡ ok url
  unfolding validate_execution
  Permitted-validate_execution url
        (uri, scheme, authority, read, origin, local, b, c, secrets, placeholders, safe, same) =
      let e = IsOrigin-target packages target uri scheme authority read origin in
      let a =
        (unless_allowed _ policy.allow_remote (is_loopback_host_iff packages uri.host)).1 local in
      let d =
        (forbidden_unless_allowed _ policy.allow_secrets
            (eq_bytes_iff plan.sensitivity (str "secret"))).1
          secrets in
      let f = (redacted_iff plan.was_redacted policy.allow_redacted).1 placeholders in
      let g = (unless_allowed _ policy.allow_unsafe (is_safe_iff plan.method)).1 safe in
      rw (e, a, b, c, d, f, g, validate_execution, target_url) (ap ok (sym same))

  -- `validate_execution` gives a URL just when the target is read as an HTTP or HTTPS origin without
  -- user information, path or query; its host is localhost, in any case, or a loopback address, or
  -- remote targets are allowed; the capture is whole and not text only; it is not marked secret, was
  -- not redacted, and its method is GET, HEAD or OPTIONS, or the policy allows what it is otherwise;
  -- and the URL is the origin followed by the path and query of the plan.
  pub validate_execution_iff :
      (url : Bytes)
      → (validate_execution packages plan target policy ≡ ok url)
        ↔ Permitted packages plan target policy url
  validate_execution_iff url = (validate_execution-Permitted url, Permitted-validate_execution url)

-- A whole response that was captured as bytes, with nothing hidden, and that the replayed bytes are.
abbrev pub SameBody : Option CapturedResponse → Bytes → Bool → Type 0
SameBody response replayed replayed_truncated =
    (captured : CapturedResponse) × (response ≡ some captured)
    × (captured.truncated ≡ false)
    × (replayed_truncated ≡ false)
    × (captured.was_redacted ≡ false)
    × (captured.legacy_text_encoding ≡ false)
    × (captured.body ≡ replayed)

compare_response-SameBody :
    (captured : CapturedResponse) (replayed : Bytes) (cut : Bool)
    → compare_response captured replayed cut ≡ matching
    → SameBody (some captured) replayed cut
compare_response-SameBody captured replayed cut h =
    let same = eq_bytes_iff captured.body replayed in
    elim (Bool-cases (captured.truncated || cut)) [
      | inl e ↦ cc (rw e at h)
      | inr e ↦ elim (Bool-cases captured.was_redacted) [
        | inl r ↦ cc (rw (e, r) at h)
        | inr r ↦ elim (Bool-cases captured.legacy_text_encoding) [
          | inl l ↦ cc (rw (e, r, l) at h)
          | inr l ↦ elim (Bool-cases (eq_bytes captured.body replayed)) [
            | inr b ↦ cc (rw (e, r, l, b) at h)
            | inl b ↦ (captured, refl, ground (arith, e), ground (arith, e), r, l, same.0 b)
          ]
        ]
      ]
    ]

compare_body-SameBody :
    (response : Option CapturedResponse) (replayed : Bytes) (cut : Bool)
    → compare_body response replayed cut ≡ matching
    → SameBody response replayed cut
unfolding compare_body
compare_body-SameBody none replayed cut h = cc h
compare_body-SameBody (some captured) replayed cut h =
    compare_response-SameBody captured replayed cut h

SameBody-compare_body :
    (response : Option CapturedResponse) (replayed : Bytes) (cut : Bool)
    → SameBody response replayed cut
    → compare_body response replayed cut ≡ matching
unfolding compare_body
SameBody-compare_body response replayed cut (captured, e, a, b, c, d, f) =
    let same = (eq_bytes_iff captured.body replayed).1 f in
    rw (e, a, b, c, d, same, compare_body) refl

-- Two bodies are reported as matching just when both are whole, nothing of the captured one was
-- hidden, it was captured as bytes, and they are the same.
pub compare_body_iff :
    (response : Option CapturedResponse) (replayed : Bytes) (replayed_truncated : Bool)
    → (compare_body response replayed replayed_truncated ≡ matching)
      ↔ SameBody response replayed replayed_truncated
compare_body_iff response replayed replayed_truncated = (
  compare_body-SameBody response replayed replayed_truncated,
  SameBody-compare_body response replayed replayed_truncated,
)
