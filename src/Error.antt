-- ===== src/Error.antt =====
-- The error type and the result type (error.rs), and the state-passing effects of the API client.
use workflowy_mcp.Base.{
  ◌⊎◌, inl, inr, ℕ, ◌≡◌, refl, Bool, false, ◌||◌, Option, none, some, ◌++◌, Text, ascii, decimal,
  ◌==◌,
}

-- What reqwest says of a transport failure.
pub record HttpFailure : Type 0 where
  pub is_timeout : Bool
  pub is_connect : Bool
  pub is_request : Bool
  pub is_body : Bool
  pub text : Text

pub data WorkflowyError : Type 0 where
  api_error : ℕ → Text → WorkflowyError
  retry_exhausted : ℕ → Text → WorkflowyError
  queue_timeout : Text → WorkflowyError
  job_failed : Text → Text → WorkflowyError
  invalid_path : Text → WorkflowyError
  invalid_input : Text → WorkflowyError
  config_error : Text → WorkflowyError
  cache_error : Text → WorkflowyError
  parse_error : Text → WorkflowyError
  io_error : Text → WorkflowyError
  serialization_error : Text → WorkflowyError
  http_error : HttpFailure → WorkflowyError
  timeout : WorkflowyError
  cancelled : WorkflowyError
  internal : Text → WorkflowyError

-- The `#[error(…)]` attributes.
unfoldable pub to_string : WorkflowyError → Text
unfolding ascii
to_string (api_error status message) =
    ascii "API error " ++ (decimal status ++ (ascii ": " ++ message))
to_string (retry_exhausted attempts reason) =
    ascii "Retry failed after " ++ (decimal attempts ++ (ascii " attempts: " ++ reason))
to_string (queue_timeout operation) = ascii "Request queue timeout: " ++ operation
to_string (job_failed job_id message) = ascii "Job " ++ (job_id ++ (ascii " failed: " ++ message))
to_string (invalid_path reason) = ascii "Invalid path: " ++ reason
to_string (invalid_input reason) = ascii "Invalid input: " ++ reason
to_string (config_error reason) = ascii "Configuration error: " ++ reason
to_string (cache_error reason) = ascii "Cache error: " ++ reason
to_string (parse_error reason) = ascii "Parse error: " ++ reason
to_string (io_error text) = ascii "IO error: " ++ text
to_string (serialization_error text) = ascii "Serialization error: " ++ text
to_string (http_error f) = ascii "HTTP error: " ++ f.text
to_string timeout = ascii "Timeout"
to_string cancelled = ascii "Cancelled"
to_string (internal text) = ascii "Internal error: " ++ text

unfoldable pub is_retryable : WorkflowyError → Bool
is_retryable (api_error status message) =
    status == 429 || status == 500 || status == 502 || status == 503 || status == 504
is_retryable (http_error f) = f.is_timeout || f.is_connect || f.is_request || f.is_body
is_retryable _ = false

pub data Result {ℓ} (A : Type ℓ) : Type ℓ where
  ok : A → Result A
  err : WorkflowyError → Result A

pub Result-cases {ℓ} :
    {A : Type ℓ} (r : Result A) → ((a : A) × (r ≡ ok a)) ⊎ ((e : WorkflowyError) × (r ≡ err e))
Result-cases (ok a) = inl (a, refl)
Result-cases (err e) = inr (e, refl)

-- An operation that may change the world `W` and may fail.
abbrev pub Io {ℓ} : Type ℓ → Type ℓ → Type ℓ
Io W A = W → Result A × W

module _ {ℓ} {W A B : Type ℓ} where
  abbrev pub continue : Result A → (A → Io W B) → Io W B
  continue (ok a) f w = f a w
  continue (err e) f w = (err e, w)

  infixl 5 ◌>>=◌ ◌>>◌
  abbrev pub ◌>>=◌ : Io W A → (A → Io W B) → Io W B
  ◌>>=◌ m f w = let (r, w') = m w in continue r f w'

  abbrev pub ◌>>◌ : Io W A → Io W B → Io W B
  m >> k = m >>= λ _. k

module _ {ℓ} {W A : Type ℓ} where
  abbrev pub pure : A → Io W A
  pure a w = (ok a, w)

  abbrev pub raise : WorkflowyError → Io W A
  raise e w = (err e, w)

  -- `.await.ok()`: the error is dropped, the effect stays
  abbrev pub attempt : Io W A → Io W (Option A)
  attempt m w = let (r, w') = m w in (ok (elim r [ ok a ↦ some a | err e ↦ none ]), w')

  -- `ok_or_else(…)?`
  abbrev pub require : Option A → WorkflowyError → Io W A
  require none e = raise e
  require (some a) e = pure a
