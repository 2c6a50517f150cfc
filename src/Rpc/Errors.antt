-- ===== src/Rpc/Errors.antt =====
-- indexer/src/indexer.ts and sdk/src/rpcRetry.ts: which errors of a call to the RPC may be retried,
-- and which prove that the request was not delivered. An error carries its `code`, a text or an
-- integer, its `status` where that is a number, its message, which is `String(err)` where it is no
-- `Error`, and whether it is one; `null` is `none`.
use circleup.Prelude.{
  ℕ, suc, String, Bool, true, false, not, ◌||◌, Option, none, some, List, [], ◌∷◌, any, ◌==◌,
  if◌then◌else◌, str_eq,
}
use Prim.Native.String
use circleup.Prelude.Text.{codes, lower_codes, includes_text, decimal}

-- `negative_code n` is -(n + 1).
pub data ErrorCode : Type 0 where
  no_code : ErrorCode
  text_code : String → ErrorCode
  integer_code negative_code : ℕ → ErrorCode

pub record RpcError : Type 0 where
  pub code : ErrorCode
  pub status : Option ℕ
  pub message : String
  pub is_error : Bool

pub has_code : List String → ErrorCode → Bool
has_code names (text_code code) = any (λ name. str_eq name code) names
has_code names _ = false

pub has_status : List ℕ → Option ℕ → Bool
has_status ns none = false
has_status ns (some status) = any (λ n. n == status) ns

-- `parts.some(p => message.toLowerCase().includes(p))`
unfoldable pub mentions : List String → String → Bool
unfolding includes_text
mentions parts message = any (λ part. includes_text (codes part) (lower_codes message)) parts

pub transient_codes : List String
transient_codes =
    "ECONNRESET" ∷ "ECONNREFUSED" ∷ "ETIMEDOUT" ∷ "ENOTFOUND" ∷ "EAI_AGAIN" ∷ "EPIPE"
    ∷ "EHOSTUNREACH" ∷ []

pub transient_texts : List String
transient_texts =
    "timeout" ∷ "timed out" ∷ "rate limit" ∷ "too many requests" ∷ "econnreset" ∷ "socket hang up"
    ∷ "network" ∷ "temporarily unavailable" ∷ "service unavailable" ∷ "bad gateway"
    ∷ "gateway timeout" ∷ []

-- The indexer's test.
unfoldable pub is_transient_rpc_error : Option RpcError → Bool
unfolding has_code has_status mentions transient_codes transient_texts
is_transient_rpc_error none = false
is_transient_rpc_error (some err) =
    has_code transient_codes err.code
    || has_status (429 ∷ 502 ∷ 503 ∷ 504 ∷ []) err.status
    || mentions transient_texts err.message

-- The SDK's test, with the messages of `fetch` in browsers.
unfoldable pub sdk_is_transient_rpc_error : Option RpcError → Bool
unfolding has_code has_status mentions transient_codes transient_texts
sdk_is_transient_rpc_error none = false
sdk_is_transient_rpc_error (some err) =
    has_code transient_codes err.code
    || has_status (429 ∷ 502 ∷ 503 ∷ 504 ∷ []) err.status
    || mentions ("failed to fetch" ∷ "fetch failed" ∷ transient_texts) err.message

abbrev is_negative : ErrorCode → Bool
is_negative (negative_code n) = true
is_negative _ = false

unfoldable pub may_have_reached_server : Option RpcError → Bool
unfolding has_code has_status mentions
may_have_reached_server none = true
may_have_reached_server (some err) =
    if has_code ("ECONNREFUSED" ∷ "ENOTFOUND" ∷ "EAI_AGAIN" ∷ "EHOSTUNREACH" ∷ []) err.code
      || mentions
          ("econnrefused" ∷ "connection refused" ∷ "enotfound" ∷ "getaddrinfo" ∷ "ehostunreach"
            ∷ [])
          err.message
    then false
    else if has_status (429 ∷ []) err.status
    then false
    else not (is_negative err.code)

-- `String(err.code)`, or the empty text where there is no code.
abbrev pub code_text : ErrorCode → String
code_text no_code = ""
code_text (text_code code) = code
code_text (integer_code n) = decimal n
code_text (negative_code n) = String.◌++◌ "-" (decimal (suc n))

unfoldable pub describe_rpc_error : Option RpcError → String
unfolding decimal
describe_rpc_error none = "null"
describe_rpc_error (some err) =
    let code = code_text err.code in
    if not err.is_error || str_eq code ""
    then err.message
    else String.◌++◌ err.message (String.◌++◌ " (" (String.◌++◌ code ")"))
