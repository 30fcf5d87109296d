-- ===== src/Push/Transport.antt =====
-- internal/push/push.go: errors, `retryable`, `post`, and what they take from the libraries.
use observant_agent.Base.{
  ℕ, Bool, true, ◌&&◌, ◌||◌, ◌∷◌, ◌++◌, Option, none, some, ltb, leb, ◌==◌, if◌then◌else◌, is_empty,
  length, take,
}
use observant_agent.Base.Clock.{Time}
use observant_agent.Base.Decimal.{format_uint}
use observant_agent.Base.Text.{Bytes, codes}
use observant_agent.Base.Trim.{trim_space}

-- `*httpError`, an error of a library with its text, `fmt.Errorf("prefix: %w", err)` and
-- `errors.Join(a, b)`.
pub data Err : Type 0 where
  http_error : ℕ → Bytes → Err
  failure : Bytes → Err
  wrapped : Bytes → Err → Err
  joined : Err → Err → Err

-- `Error()`.
unfoldable pub error_text : Err → Bytes
error_text (http_error code body) =
    if is_empty body
    then codes "http " ++ format_uint code
    else codes "http " ++ (format_uint code ++ (codes ": " ++ body))
error_text (failure msg) = msg
error_text (wrapped prefix e) = prefix ++ (codes ": " ++ error_text e)
error_text (joined a b) = error_text a ++ (b'\n' ∷ error_text b)

-- The code of the first `*httpError` that `errors.As` finds.
abbrev pub first_code : Option ℕ → Option ℕ → Option ℕ
first_code none o = o
first_code (some c) o = some c

unfoldable pub as_http_error : Err → Option ℕ
as_http_error (http_error code body) = some code
as_http_error (failure msg) = none
as_http_error (wrapped prefix e) = as_http_error e
as_http_error (joined a b) = first_code (as_http_error a) (as_http_error b)

unfoldable pub retryable : Err → Bool
unfolding as_http_error
retryable e = elim (as_http_error e) [
  | some code ↦ if code == 408 || code == 429 then true else ltb code 400 || leb 500 code
  | none ↦ true
]

pub record Request : Type 0 where
  pub url : Bytes
  pub authorization : Bytes
  pub content_type : Bytes
  pub content_encoding : Bytes
  pub content_length : ℕ
  pub payload : Bytes

-- What `client.Do` returns: an answer with what can be read of its body, or an error's text.
pub data Reply : Type 0 where
  answer : ℕ → Bytes → Reply
  refused : Bytes → Reply

-- The gzip writer, the HTTP client, contexts and the clock, over the state of the world. Durations
-- are milliseconds. `with_timeout` derives a context with a deadline and `cancel` ends it;
-- `ctx_error` is `ctx.Err()` of the innermost. A failing call returns its error's text.
pub record Transport : Type 1 where
  pub World : Type 0
  pub gzip_new : World → World
  pub gzip_reset : World → World
  pub gzip_write : World → Bytes → Option Bytes × World
  pub gzip_close : World → Option Bytes × World
  pub gzip_output : World → Bytes
  pub new_request : World → Bytes → Option Bytes
  pub do_request : World → Request → Reply × World
  pub with_timeout : ℕ → World → World
  pub cancel : World → World
  pub ctx_error : World → Option Bytes
  pub sleep : World → ℕ → Option Bytes × World
  pub now : World → Time

-- `RequestTimeout`, in milliseconds.
abbrev pub request_timeout : ℕ
request_timeout = 10000

-- The answer's status and text as `post` judges them.
unfoldable pub verdict : Reply → Option Err
verdict (answer status body) =
    if leb 200 status && ltb status 300
    then none
    else some (http_error status (trim_space (take 256 body)))
verdict (refused msg) = some (failure msg)

unfoldable pub request_of : Bytes → Bytes → Bytes → Request
request_of url token payload = record {
  url = url;
  authorization = codes "Bearer " ++ token;
  content_type = codes "text/plain; charset=utf-8";
  content_encoding = codes "gzip";
  content_length = length payload;
  payload = payload;
}

module _ (t : Transport) where
  open t use {
    World, gzip_new, gzip_reset, gzip_write, gzip_close, gzip_output, new_request, do_request,
    with_timeout, cancel,
  }

  -- `p.gz.Write(body)` and `p.gz.Close()`, behind `NewWriter` (`fresh`) or `Reset`.
  unfoldable pub compress : Bool → World → Bytes → Option Err × World
  compress fresh w body =
      let (failed, w1) = gzip_write (if fresh then gzip_new w else gzip_reset w) body in
      elim failed [
        | some msg ↦ (some (wrapped (codes "gzip") (failure msg)), w1)
        | none ↦
            let (unclosed, w2) = gzip_close w1 in
            (
              elim unclosed [
                | some msg ↦ some (wrapped (codes "gzip") (failure msg))
                | none ↦ none
              ],
              w2,
            )
      ]

  -- The request and its answer, under a deadline of its own.
  unfoldable pub exchange : Bytes → Bytes → World → Bytes → Option Err × World
  unfolding verdict
  exchange url token w payload =
      let w1 = with_timeout request_timeout w in
      elim (new_request w1 url) [
        | some msg ↦ (some (failure msg), cancel w1)
        | none ↦
            let (reply, w2) = do_request w1 (request_of url token payload) in
            (verdict reply, cancel w2)
      ]
