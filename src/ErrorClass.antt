-- ===== src/ErrorClass.antt =====
-- The classes of error texts (utils/error_class.rs). `to_lowercase` is a parameter.
use workflowy_mcp.Base.{Bool, true, false, ◌||◌, Text, ascii, contains, if◌then◌else◌}

pub data ProximateCause : Type 0 where
  timeout lock_contention cache_miss upstream_error cancelled not_found auth_failure invalid_params
        rate_limited unknown :
      ProximateCause

unfoldable pub cause_as_str : ProximateCause → Text
unfolding ascii
cause_as_str timeout = ascii "timeout"
cause_as_str lock_contention = ascii "lock_contention"
cause_as_str cache_miss = ascii "cache_miss"
cause_as_str upstream_error = ascii "upstream_error"
cause_as_str cancelled = ascii "cancelled"
cause_as_str not_found = ascii "not_found"
cause_as_str auth_failure = ascii "auth_failure"
cause_as_str invalid_params = ascii "invalid_params"
cause_as_str rate_limited = ascii "rate_limited"
cause_as_str unknown = ascii "unknown"

unfoldable pub from_error_message : (to_lowercase : Text → Text) → Text → ProximateCause
unfolding contains ascii
from_error_message to_lowercase err_str =
    let lower = to_lowercase err_str in
    if contains lower (ascii "429") || contains lower (ascii "rate limit")
    then rate_limited
    else if contains lower (ascii "404") || contains lower (ascii "not found")
    then not_found
    else if contains lower (ascii "cancelled")
    then cancelled
    else if contains lower (ascii "timeout") || contains lower (ascii "timed out")
    then timeout
    else if contains lower (ascii "api error 5")
    then upstream_error
    else if contains lower (ascii "401")
        || contains lower (ascii "403")
        || contains lower (ascii "unauthor")
    then auth_failure
    else if contains lower (ascii "lock")
    then lock_contention
    else if contains lower (ascii "cache")
    then cache_miss
    else unknown

unfoldable pub is_retryable_cause : ProximateCause → Bool
is_retryable_cause rate_limited = true
is_retryable_cause timeout = true
is_retryable_cause upstream_error = true
is_retryable_cause lock_contention = true
is_retryable_cause cache_miss = true
is_retryable_cause not_found = true
is_retryable_cause cancelled = true
is_retryable_cause _ = false
