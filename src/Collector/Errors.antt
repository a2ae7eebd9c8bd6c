-- ===== src/Collector/Errors.antt =====
-- Go error values of internal/collector: sentinels, HTTPError (httpx.go), `%w` wrapping and
-- errors.Join, with errors.Is and errors.As as the walks over the tree that Go documents.
use multi_upstream_ai_gatewa.Prelude.{
  ℕ, String, Bool, true, false, ◌||◌, Option, none, some, List, [], ◌∷◌, nat_beq,
}

-- Package-level error variables that the code compares with.
pub data Sentinel : Type 0 where
  not_supported precondition unauthorized upstream_rejected invalid_access_token : Sentinel
  needs_relogin key_not_registered channel_read_busy canceled deadline_exceeded : Sentinel

abbrev sentinel_index : Sentinel → ℕ
sentinel_index not_supported = 0
sentinel_index precondition = 1
sentinel_index unauthorized = 2
sentinel_index upstream_rejected = 3
sentinel_index invalid_access_token = 4
sentinel_index needs_relogin = 5
sentinel_index key_not_registered = 6
sentinel_index channel_read_busy = 7
sentinel_index canceled = 8
sentinel_index deadline_exceeded = 9

abbrev pub sentinel_beq : Sentinel → Sentinel → Bool
sentinel_beq a b = nat_beq (sentinel_index a) (sentinel_index b)

-- HTTPError without its Cause. Durations are nanoseconds.
pub record HttpError : Type 0 where
  pub status_code : ℕ
  pub business_code : ℕ
  pub retry_after : ℕ
  pub message : String

-- An error value. `http` has no Cause, `http_caused` has one; `net` is a net.Error with its
-- Timeout(); `account` is accountErr of sync.go; `wrap` is fmt.Errorf with one `%w`.
mutual
  pub data Err : Type 0 where
    sentinel : Sentinel → Err
    text : String → Err
    net : Bool → Err
    http : HttpError → Err
    http_caused : HttpError → Err → Err
    wrap : String → Err → Err
    account : ℕ → String → Err → Err
    join : Errs → Err

  pub data Errs : Type 0 where
    nil : Errs
    cons : Err → Errs → Errs

-- errors.Is(err, target): some node of the tree is the target.
unfoldable mutual
  pub is : Sentinel → Err → Bool
  is t (sentinel s) = sentinel_beq s t
  is t (text _) = false
  is t (net _) = false
  is t (http _) = false
  is t (http_caused _ e) = is t e
  is t (wrap _ e) = is t e
  is t (account _ _ e) = is t e
  is t (join es) = is_any t es

  pub is_any : Sentinel → Errs → Bool
  is_any t nil = false
  is_any t (cons e es) = is t e || is_any t es

abbrev pub or_else {ℓ} : {A : Type ℓ} → Option A → Option A → Option A
or_else none b = b
or_else (some a) b = some a

-- errors.As(err, &target) at *HTTPError: the first one, depth first.
unfoldable mutual
  pub as_http : Err → Option HttpError
  as_http (sentinel s) = none
  as_http (text _) = none
  as_http (net _) = none
  as_http (http h) = some h
  as_http (http_caused h _) = some h
  as_http (wrap _ e) = as_http e
  as_http (account _ _ e) = as_http e
  as_http (join es) = as_http_any es

  pub as_http_any : Errs → Option HttpError
  as_http_any nil = none
  as_http_any (cons e es) = or_else (as_http e) (as_http_any es)

-- errors.As at net.Error: what Timeout() says of the first one. context.DeadlineExceeded is a
-- net.Error too, and its Timeout() holds.
unfoldable mutual
  pub as_net : Err → Option Bool
  as_net (sentinel deadline_exceeded) = some true
  as_net (sentinel s) = none
  as_net (text _) = none
  as_net (net t) = some t
  as_net (http _) = none
  as_net (http_caused _ e) = as_net e
  as_net (wrap _ e) = as_net e
  as_net (account _ _ e) = as_net e
  as_net (join es) = as_net_any es

  pub as_net_any : Errs → Option Bool
  as_net_any nil = none
  as_net_any (cons e es) = or_else (as_net e) (as_net_any es)

-- errors.As(err, &netErr) && netErr.Timeout()
unfoldable pub is_timeout : Err → Bool
is_timeout e = elim (as_net e) [ none ↦ false | some t ↦ t ]

-- HTTPFailure: the status and the Retry-After of the HTTPError, if there is one.
unfoldable pub http_failure : Err → Option (ℕ × ℕ)
http_failure e = elim (as_http e) [ none ↦ none | some h ↦ some (h.status_code, h.retry_after) ]

-- IsAuthenticationFailure of httpx_auth.go
unfoldable pub is_authentication_failure : Err → Bool
is_authentication_failure e = is unauthorized e || is invalid_access_token e

abbrev pub errs : List Err → Errs
errs [] = nil
errs (e ∷ es) = cons e (errs es)

-- errors.Join(errs...): nil for an empty list. No nil stands in the lists that the code joins.
unfoldable pub join_all : List Err → Option Err
join_all [] = none
join_all (e ∷ es) = some (join (errs (e ∷ es)))
