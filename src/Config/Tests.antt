-- ===== src/Config/Tests.antt =====
-- The validation of concrete configurations.
use go_kubernetes_mcp_server.Base.{◌≡◌, ◌↔◌, refl, true, false, none, some, equal_fold, lower_is}
use go_kubernetes_mcp_server.Err.{refusing_plaintext}
use go_kubernetes_mcp_server.Config.{
  Config, defaults, validate, check_fields, validate_http_exposure, is_loopback_listen,
}
use go_kubernetes_mcp_server.Config.Laws.{IsProtected, validate_iff}

abbrev public_http : Config
public_http = record defaults {
  transport = "http";
  listen = "0.0.0.0:8080";
  auth_token = "s3cret";
  allow_destructive = true;
}

validate_iff_example : ((validate public_http).1 ≡ none) ↔ (
    (check_fields public_http ≡ none)
    × (equal_fold public_http.transport "http" ≡ true
        → public_http.insecure_http ≡ false
        → IsProtected public_http))
validate_iff_example = validate_iff public_http

-- All interfaces are no loopback address.
is_loopback_listen-all : is_loopback_listen (record defaults { listen = ":8080" }) ≡ false
unfolding is_loopback_listen
is_loopback_listen-all = refl

validate-no_token :
    (validate (record public_http { auth_token = "" })).1 ≡ some (refusing_plaintext "0.0.0.0:8080")
unfolding validate check_fields lower_is equal_fold validate_http_exposure is_loopback_listen
validate-no_token = refl

is_loopback_listen-ipv6 : is_loopback_listen (record defaults { listen = "[::1]:8080" }) ≡ false
unfolding is_loopback_listen
is_loopback_listen-ipv6 = refl
