-- ===== src/Replay/Guard.antt =====
-- crates/lens-replay/src/lib.rs: `ReplayPlan`, its URLs, and the guards of an execution.
use lens.Prelude.{ℕ, Bool, true, false, not, ◌&&◌, ◌||◌, ◌++◌, Option, none, some, if◌then◌else◌}
use lens.Protocol.{Headers}
use lens.Replay.Packages.{Packages, Uri}
use lens.Text.{Bytes, str, eq_bytes, eq_ignore_ascii_case}
use lens.Text.Result.{Result, ok, err, ◌>>=◌, ◌>>◌, refuse_if}
use lens.Text.Words.{find_bytes}

-- Without the deadline, which only the transport reads.
pub record ReplayPolicy : Type 0 where
  pub allow_unsafe : Bool
  pub allow_secrets : Bool
  pub allow_redacted : Bool
  pub allow_remote : Bool

abbrev pub default_policy : ReplayPolicy
default_policy = record {
  allow_unsafe = false;
  allow_secrets = false;
  allow_redacted = false;
  allow_remote = false;
}

pub record CapturedResponse : Type 0 where
  pub status : ℕ
  pub body : Bytes
  pub truncated : Bool
  pub was_redacted : Bool
  pub legacy_text_encoding : Bool

pub record ReplayPlan : Type 0 where
  pub flow_id : ℕ
  pub request : ℕ
  pub method : Bytes
  pub path_and_query : Bytes
  pub headers : Headers
  pub body : Bytes
  pub truncated : Bool
  pub sensitivity : Bytes
  pub was_redacted : Bool
  pub legacy_text_encoding : Bool
  pub captured_response : Option CapturedResponse

-- `matches!(uri.scheme_str(), Some("http" | "https"))`
abbrev pub is_http : Option Bytes → Bool
is_http none = false
is_http (some scheme) = eq_bytes scheme (str "http") || eq_bytes scheme (str "https")

abbrev pub not_origin : Bytes
not_origin = str "target must be an HTTP(S) origin URL"

abbrev pub contains : Bytes → Bytes → Bool
contains text needle = elim (find_bytes text needle) [ none ↦ false | some i ↦ true ]

abbrev pub has_path : Option Bytes → Bool
has_path none = false
has_path (some path) = not (eq_bytes path (str "/"))

abbrev pub some_or_refuse : Option Bytes → Bytes → Result Bytes
some_or_refuse none reason = err reason
some_or_refuse (some text) reason = ok text

-- A scheme and an authority that a target is made of.
pub record Origin : Type 0 where
  pub scheme : Bytes
  pub authority : Bytes
  pub uri : Uri

abbrev pub parsed_or_refuse : Option Uri → Result Uri
parsed_or_refuse none = err not_origin
parsed_or_refuse (some uri) = ok uri

abbrev pub is_preview_safe_method : Bytes → Bool
is_preview_safe_method method =
    eq_bytes method (str "GET") || eq_bytes method (str "HEAD") || eq_bytes method (str "OPTIONS")

module _ (packages : Packages) where
  unfoldable pub parse_target_origin : Bytes → Result Origin
  unfolding eq_bytes find_bytes str
  parse_target_origin target = do
    uri ← parsed_or_refuse (packages.parse_uri target)
    scheme ← some_or_refuse uri.scheme not_origin
    refuse_if (not (is_http uri.scheme)) not_origin
    authority ← some_or_refuse uri.authority not_origin
    refuse_if (contains authority (str "@")) (str "target must not contain user information")
    refuse_if (has_path uri.path_and_query) (str "target must be an origin without a path or query")
    ok (record { scheme = scheme; authority = authority; uri = uri })

  abbrev pub is_loopback_host : Option Bytes → Bool
  is_loopback_host none = false
  is_loopback_host (some host) =
      eq_ignore_ascii_case host (str "localhost") || packages.is_loopback host

  abbrev pub is_loopback_target : Uri → Bool
  is_loopback_target uri = is_loopback_host uri.host

  abbrev pub url : Origin → Bytes → Bytes
  url origin path = origin.scheme ++ (str "://" ++ (origin.authority ++ path))

  unfoldable pub target_url : ReplayPlan → Bytes → Result Bytes
  unfolding parse_target_origin
  target_url plan target = do
    origin ← parse_target_origin target
    ok (url origin plan.path_and_query)

  abbrev pub is_secret : ReplayPlan → Bool
  is_secret plan = eq_bytes plan.sensitivity (str "secret")

  unfoldable pub preview_target_url : ReplayPlan → Bytes → Result Bytes
  unfolding target_url parse_target_origin eq_bytes
  preview_target_url plan target =
      if not (is_secret plan)
      then target_url plan target
      else do origin ← parse_target_origin target; ok (url origin (str "/[secret path omitted]"))

  unfoldable pub validate_execution : ReplayPlan → Bytes → ReplayPolicy → Result Bytes
  unfolding parse_target_origin target_url eq_bytes eq_ignore_ascii_case
  validate_execution plan target policy = do
    origin ← parse_target_origin target
    refuse_if (not (is_loopback_target origin.uri) && not policy.allow_remote)
        (str "remote replay target requires --allow-remote")
    refuse_if plan.truncated
        (str "truncated requests cannot be replayed; capture again with a sufficient --max-body")
    refuse_if plan.legacy_text_encoding (
        str
          "legacy text-only exports are preview-only; capture again with the current Lens version")
    refuse_if (is_secret plan && not policy.allow_secrets)
        (str "secret-bearing capture requires --allow-secrets")
    refuse_if (plan.was_redacted && not policy.allow_redacted)
        (str "redacted request requires --allow-redacted to send placeholders")
    refuse_if (not (is_preview_safe_method plan.method) && not policy.allow_unsafe)
        (plan.method ++ str " may change server state; execution requires --allow-unsafe")
    target_url plan target
