-- ===== src/Replay/Targets.antt =====
-- When the target of a replay is an origin, on the loopback or not.
use mathlib.Core.Path.{Path}
use lens.Prelude.{
  Bool, true, false, not, ◌&&◌, ◌||◌, [], ◌∷◌, ◌≡◌, ◌↔◌, ◌⊎◌, refl, subst, Bool-cases, Option-cases,
  inl, inr, Option, none, some, arith,
}
use lens.Replay.Guard.{
  Origin, contains, has_path, is_http, not_origin, some_or_refuse, parse_target_origin,
  is_loopback_host, is_preview_safe_method,
}
use lens.Replay.Packages.{Packages, Uri}
use lens.Text.{
  Bytes, str, to_ascii_lowercase, eq_bytes, eq_bytes_iff, eq_ignore_ascii_case, starts_with,
}
use lens.Text.Result.{Result, ok, ◌>>=◌, ◌>>◌, refuse_if}
use lens.Text.Split.{Free}
use lens.Text.Words.{find_bytes}

pub refuse_if-ok :
    {B : Type 0} (b : Bool) (reason : Bytes) (r : Result B) (u : B)
    → (refuse_if b reason >> r) ≡ ok u
    → (b ≡ false) × (r ≡ ok u)
refuse_if-ok true reason r u h = cc h
refuse_if-ok false reason r u h = (refl, h)

pub ok_injective : {A : Type 0} (a b : A) → Path (Result A) (ok a) (ok b) → a ≡ b
ok_injective a b h = cc h

-- What an origin is: HTTP, and an authority with no user information, path or query.
abbrev pub IsOrigin : Uri → Bytes → Bytes → Type 0
IsOrigin uri scheme authority =
    (uri.scheme ≡ some scheme)
    × ((scheme ≡ str "http") ⊎ (scheme ≡ str "https"))
    × (uri.authority ≡ some authority)
    × Free b'@' authority
    × ((uri.path_and_query ≡ none) ⊎ (uri.path_and_query ≡ some (str "/")))

abbrev pub IsLocal : Packages → Uri → Type 0
IsLocal packages uri =
    (host : Bytes) × (uri.host ≡ some host)
    × ((to_ascii_lowercase host ≡ str "localhost") ⊎ (packages.is_loopback host ≡ true))

find_at_sign : (text : Bytes) → (find_bytes text (str "@") ≡ none) ↔ Free b'@' text
unfolding find_bytes starts_with str
find_at_sign [] = (λ _. tt, λ _. refl)
find_at_sign (c ∷ text) = ground (arith, find_at_sign text)

contains_iff : (text : Bytes) → (contains text (str "@") ≡ false) ↔ Free b'@' text
contains_iff text = elim (Option-cases (find_bytes text (str "@"))) [
  | inl e ↦ (λ _. (find_at_sign text).0 e, λ _. rw (e, contains) refl)
  | inr (i, e) ↦
      (λ h. absurd (cc (rw (e, contains) at h)), λ h. absurd (cc (e, (find_at_sign text).1 h)))
]

pub unless_allowed :
    {P : Type 0} (b allowed : Bool)
    → (b ≡ true) ↔ P
    → ((not b && not allowed) ≡ false) ↔ (P ⊎ (allowed ≡ true))
unless_allowed b allowed p = ground (arith, p)

pub forbidden_unless_allowed :
    {P : Type 0} (b allowed : Bool)
    → (b ≡ true) ↔ P
    → ((b && not allowed) ≡ false) ↔ (¬ P ⊎ (allowed ≡ true))
forbidden_unless_allowed b allowed p = ground (arith, p)

pub redacted_iff :
    (b allowed : Bool) → ((b && not allowed) ≡ false) ↔ ((b ≡ false) ⊎ (allowed ≡ true))
redacted_iff b allowed = ground arith

pub is_safe_iff :
    (method : Bytes)
    → (is_preview_safe_method method ≡ true)
      ↔ ((method ≡ str "GET") ⊎ ((method ≡ str "HEAD") ⊎ (method ≡ str "OPTIONS")))
is_safe_iff method = ground (
  arith,
  eq_bytes_iff method (str "GET"),
  eq_bytes_iff method (str "HEAD"),
  eq_bytes_iff method (str "OPTIONS"),
)

or_eq_bytes_iff : (a b : Bytes) (c : Bool) → ((eq_bytes a b || c) ≡ true) ↔ ((a ≡ b) ⊎ (c ≡ true))
or_eq_bytes_iff a b c = ground (arith, eq_bytes_iff a b)

module _ (packages : Packages) where
  pub is_loopback_host_iff :
      (o : Option Bytes)
      → (is_loopback_host packages o ≡ true) ↔ (
          (host : Bytes) × (o ≡ some host)
          × ((to_ascii_lowercase host ≡ str "localhost") ⊎ (packages.is_loopback host ≡ true)))
  unfolding eq_ignore_ascii_case to_ascii_lowercase str
  is_loopback_host_iff none = (λ h. cc h, λ (host, e, w). absurd (cc e))
  is_loopback_host_iff (some host) =
      let test =
        or_eq_bytes_iff (to_ascii_lowercase host) (str "localhost") (packages.is_loopback host) in
      (
        λ h. (host, refl, test.0 h),
        λ (found, e, w).
            let same : found ≡ host = cc e in
            test.1 (
              subst
                (λ x. (to_ascii_lowercase x ≡ str "localhost") ⊎ (packages.is_loopback x ≡ true))
                same w),
      )

  has_path_iff : (o : Option Bytes) → (has_path o ≡ false) ↔ ((o ≡ none) ⊎ (o ≡ some (str "/")))
  has_path_iff none = (λ _. inl refl, λ _. refl)
  has_path_iff (some path) = ground (arith, eq_bytes_iff path (str "/"))

  is_http_iff :
      (scheme : Bytes)
      → (not (is_http (some scheme)) ≡ false) ↔ ((scheme ≡ str "http") ⊎ (scheme ≡ str "https"))
  is_http_iff scheme =
      ground (arith, eq_bytes_iff scheme (str "http"), eq_bytes_iff scheme (str "https"))

  -- The guards of `parse_target_origin`, on the parts of the target.
  abbrev checked : Uri → Option Bytes → Option Bytes → Option Bytes → Result Origin
  checked uri some_scheme some_authority path = do
    scheme ← some_or_refuse some_scheme not_origin
    refuse_if (not (is_http some_scheme)) not_origin
    authority ← some_or_refuse some_authority not_origin
    refuse_if (contains authority (str "@")) (str "target must not contain user information")
    refuse_if (has_path path) (str "target must be an origin without a path or query")
    ok (record { scheme = scheme; authority = authority; uri = uri })

  abbrev IsOriginOf : Uri → Option Bytes → Option Bytes → Option Bytes → Origin → Type 0
  IsOriginOf uri some_scheme some_authority path origin =
      (uri ≡ origin.uri)
      × (some_scheme ≡ some origin.scheme)
      × ((origin.scheme ≡ str "http") ⊎ (origin.scheme ≡ str "https"))
      × (some_authority ≡ some origin.authority)
      × Free b'@' origin.authority
      × ((path ≡ none) ⊎ (path ≡ some (str "/")))

  checked-IsOriginOf :
      (uri : Uri) (some_scheme some_authority path : Option Bytes) (origin : Origin)
      → checked uri some_scheme some_authority path ≡ ok origin
      → IsOriginOf uri some_scheme some_authority path origin
  checked-IsOriginOf uri none a path origin h = cc h
  checked-IsOriginOf uri (some s) none path origin h = elim (Bool-cases (not (is_http (some s)))) [
    | inl e ↦ cc (rw e at h)
    | inr e ↦ cc (rw e at h)
  ]
  checked-IsOriginOf uri (some s) (some a) path origin h =
      elim (Bool-cases (not (is_http (some s)))) [
        | inl e ↦ cc (rw e at h)
        | inr http ↦ elim (Bool-cases (contains a (str "@"))) [
          | inl e ↦ cc (rw (http, e) at h)
          | inr free ↦ elim (Bool-cases (has_path path)) [
            | inl e ↦ cc (rw (http, free, e) at h)
            | inr no_path ↦
                subst (IsOriginOf uri (some s) (some a) path)
                  (ok_injective (record { scheme = s; authority = a; uri = uri }) origin
                    (rw (http, free, no_path) at h))
                  (
                    refl,
                    refl,
                    (is_http_iff s).0 http,
                    refl,
                    (contains_iff a).0 free,
                    (has_path_iff path).0 no_path,
                  )
          ]
        ]
      ]

  pub target-IsOriginOf :
      (target : Bytes) (origin : Origin)
      → parse_target_origin packages target ≡ ok origin
      → (uri : Uri) × (packages.parse_uri target ≡ some uri)
        × IsOriginOf uri uri.scheme uri.authority uri.path_and_query origin
  unfolding parse_target_origin
  target-IsOriginOf target origin h = elim (Option-cases (packages.parse_uri target)) [
    | inl e ↦ cc (rw (e, parse_target_origin) at h)
    | inr (uri, e) ↦
        let h' : checked uri uri.scheme uri.authority uri.path_and_query ≡ ok origin =
          rw (e, parse_target_origin) at h in
        (uri, e, checked-IsOriginOf uri uri.scheme uri.authority uri.path_and_query origin h')
  ]

  pub IsOrigin-target :
      (target : Bytes) (uri : Uri) (scheme authority : Bytes)
      → packages.parse_uri target ≡ some uri
      → IsOrigin uri scheme authority
      → parse_target_origin packages target
        ≡ ok (record { scheme = scheme; authority = authority; uri = uri })
  unfolding parse_target_origin
  IsOrigin-target target uri scheme authority read (s, http, a, free, path) =
      let h = (is_http_iff scheme).1 http in
      let f = (contains_iff authority).1 free in
      let p = (has_path_iff uri.path_and_query).1 path in
      rw (read, s, a, h, f, p, parse_target_origin) refl
