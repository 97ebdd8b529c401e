-- ===== src/Hystrix.antt =====
-- circuit-breaker/hystrix_circuit_breaker.go: the options of NewHystrixCircuitBreaker, and those that it
-- hands to the Hystrix library. Durations are in nanoseconds.
use candi_plugin.Base.{◌≡◌, refl, List, [], ◌∷◌, ◌++◌, Option, none, some, arith}
use candi_plugin.Go.Int.{ℤ, pos}
use candi_plugin.Go.Text.{Bytes, codes}
use candi_plugin.Candi.{last_of}

-- An option of the client. A retrier is known by its constant backoff and the jitter; the HTTP client by
-- the TLS configuration of its transport; the fallback hands its error on.
pub data ClientOption : Type 0 where
  with_http_timeout : ℤ → ClientOption
  with_hystrix_timeout : ℤ → ClientOption
  with_retrier : (backoff jitter : ℤ) → ClientOption
  with_retry_count : ℤ → ClientOption
  with_command_name : Bytes → ClientOption
  with_fallback_func : ClientOption
  with_http_client : (tls_config : Bytes) → ClientOption
  other : Bytes → ClientOption

-- hystrixOption; a TLS configuration is nil or known by a name.
pub record HystrixOptions : Type 0 where
  pub breaker_name : Bytes
  pub timeout : ℤ
  pub retries : ℤ
  pub sleep_between_retry : ℤ
  pub tls_config : Option Bytes
  pub additional_option : List ClientOption

-- HystrixOption, by the function that returned it and its argument.
pub data HystrixOption : Type 0 where
  hystrix_set_retries : ℤ → HystrixOption
  hystrix_set_sleep_between_retry : ℤ → HystrixOption
  hystrix_set_tls : Option Bytes → HystrixOption
  hystrix_set_timeout : ℤ → HystrixOption
  hystrix_set_breaker_name : Bytes → HystrixOption

unfoldable pub apply_option : HystrixOption → HystrixOptions → HystrixOptions
apply_option (hystrix_set_retries n) h = record h { retries = n }
apply_option (hystrix_set_sleep_between_retry d) h = record h { sleep_between_retry = d }
apply_option (hystrix_set_tls config) h = record h { tls_config = config }
apply_option (hystrix_set_timeout d) h = record h { timeout = d }
apply_option (hystrix_set_breaker_name name) h = record h { breaker_name = name }

unfoldable pub apply_options : List HystrixOption → HystrixOptions → HystrixOptions
apply_options [] h = h
apply_options (opt ∷ opts) h = apply_options opts (apply_option opt h)

unfoldable pub default_options : HystrixOptions
default_options = record {
  breaker_name = codes "default";
  timeout = pos 10000000000;
  retries = pos 5;
  sleep_between_retry = pos 500000000;
  tls_config = none;
  additional_option = [];
}

unfoldable pub http_client : Option Bytes → List ClientOption
http_client none = []
http_client (some config) = with_http_client config ∷ []

unfoldable pub client_options : HystrixOptions → List ClientOption
client_options h =
    (with_http_timeout h.timeout
      ∷ with_hystrix_timeout h.timeout
      ∷ with_retrier h.sleep_between_retry (pos 10000000)
      ∷ with_retry_count h.retries
      ∷ with_command_name h.breaker_name
      ∷ with_fallback_func
      ∷ [])
    ++ (h.additional_option ++ http_client h.tls_config)

-- NewHystrixCircuitBreaker: the options that hystrix.NewClient is called with.
unfoldable pub new_hystrix_circuit_breaker : List HystrixOption → List ClientOption
new_hystrix_circuit_breaker opts = client_options (apply_options opts default_options)

abbrev pub retries_of : HystrixOption → Option ℤ
retries_of (hystrix_set_retries n) = some n
retries_of _ = none

abbrev pub sleep_of : HystrixOption → Option ℤ
sleep_of (hystrix_set_sleep_between_retry d) = some d
sleep_of _ = none

abbrev pub tls_of : HystrixOption → Option (Option Bytes)
tls_of (hystrix_set_tls config) = some config
tls_of _ = none

abbrev pub timeout_of : HystrixOption → Option ℤ
timeout_of (hystrix_set_timeout d) = some d
timeout_of _ = none

abbrev pub name_of : HystrixOption → Option Bytes
name_of (hystrix_set_breaker_name name) = some name
name_of _ = none

-- The options, field by field, for a start from h.
record Last (opts : List HystrixOption) (h r : HystrixOptions) : Type 0 where
  name : r.breaker_name ≡ last_of name_of opts h.breaker_name
  timeout : r.timeout ≡ last_of timeout_of opts h.timeout
  retries : r.retries ≡ last_of retries_of opts h.retries
  sleep : r.sleep_between_retry ≡ last_of sleep_of opts h.sleep_between_retry
  tls : r.tls_config ≡ last_of tls_of opts h.tls_config
  rest : r.additional_option ≡ h.additional_option

apply_options-Last :
    (opts : List HystrixOption) (h : HystrixOptions) → Last opts h (apply_options opts h)
unfolding apply_options apply_option
apply_options-Last [] h = record {
  name = refl;
  timeout = refl;
  retries = refl;
  sleep = refl;
  tls = refl;
  rest = refl;
}
apply_options-Last (opt ∷ opts) h = ground (arith, apply_options-Last opts (apply_option opt h))

-- NewHystrixCircuitBreaker: the client gets one timeout for HTTP and for Hystrix, and a backoff, a retry
-- count and a name, each the caller's last or else the default of 10 seconds, half a second, 5 and
-- "default"; and behind them an HTTP client, just where the caller's last TLS configuration is not nil.
pub new_hystrix_circuit_breaker-last :
    (opts : List HystrixOption)
    → let timeout = last_of timeout_of opts (pos 10000000000) in
      new_hystrix_circuit_breaker opts
      ≡ with_http_timeout timeout
        ∷ with_hystrix_timeout timeout
        ∷ with_retrier (last_of sleep_of opts (pos 500000000)) (pos 10000000)
        ∷ with_retry_count (last_of retries_of opts (pos 5))
        ∷ with_command_name (last_of name_of opts (codes "default"))
        ∷ with_fallback_func
        ∷ http_client (last_of tls_of opts none)
unfolding new_hystrix_circuit_breaker client_options default_options
new_hystrix_circuit_breaker-last opts =
    let l = apply_options-Last opts default_options in
    rw (l.timeout, l.sleep, l.retries, l.name, l.rest, l.tls) refl
