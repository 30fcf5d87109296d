-- ===== src/Push/Tests.antt =====
-- A scripted endpoint, and the theorems about the pusher against it.
use observant_agent.Base.{List, [], ◌∷◌, ◌≡◌, refl, arith, none, length}
use observant_agent.Base.Text.{codes}
use observant_agent.Base.Decimal.{format_uint}
use observant_agent.Base.Trim.{trim_space}
use observant_agent.Push.Flush.{Flushed, flush_pending-Flushed}
use observant_agent.Push.Frame.{Refuses, post-Refuses}
use observant_agent.Push.Ledger.{
  IsSound, Call, sends, sends_once, flushes, calls, calls-new-IsSound,
}
use observant_agent.Push.Pusher.{
  Pusher, backoff, new, post, flush_pending, send_with_retry, send, send_once_loop, send_once,
  buffer, stats_of,
}
use observant_agent.Push.Retry.{Tried, SentOnce, send_with_retry-Tried, send_once-SentOnce}
use observant_agent.Push.Send.{Settled, send-Settled}
use observant_agent.Push.Transport.{
  http_error, Reply, answer, refused, Transport, compress, exchange, error_text, retryable,
}

unfoldable pub next_reply : List Reply → Reply × List Reply
next_reply [] = (refused (codes "down"), [])
next_reply (r ∷ rs) = (r, rs)

-- The replies to come; nothing else can go wrong.
abbrev pub scripted : Transport
scripted = record {
  World = List Reply;
  gzip_new = λ w. w;
  gzip_reset = λ w. w;
  gzip_write = λ w _. (none, w);
  gzip_close = λ w. (none, w);
  gzip_output = λ _. codes "z";
  new_request = λ _ _. none;
  do_request = λ w _. next_reply w;
  with_timeout = λ _ w. w;
  cancel = λ w. w;
  ctx_error = λ _. none;
  sleep = λ w _. (none, w);
  now = λ _. 7;
}

abbrev pub start : Pusher
start = new (codes "http://h") (codes "t")

abbrev pub busy : Reply
busy = answer 503 (codes " busy\n")

abbrev pub fine : Reply
fine = answer 204 []

-- Four failures drop the first batch; the second call delivers it before its own batch.
abbrev history : List (Call scripted)
history =
    sends (busy ∷ busy ∷ busy ∷ busy ∷ []) (codes "one") 1
    ∷ sends (fine ∷ fine ∷ []) (codes "two") 2
    ∷ sends_once (answer 400 [] ∷ []) (codes "end") 1
    ∷ flushes []
    ∷ []

history_runs : stats_of (calls scripted start history) ≡ record {
  batches = 2;
  points = 3;
  bytes = 6;
  failures = 5;
  dropped = 1;
  retried = 1;
  rejected_dropped = 0;
  buffered = 0;
  last_error = codes "http 400";
}
unfolding stats_of calls new send send_once flush_pending send_with_retry send_once_loop post
    compress exchange next_reply buffer retryable error_text format_uint trim_space
history_runs = refl

calls-new-IsSound_example : IsSound (length history) (calls scripted start history)
calls-new-IsSound_example =
    calls-new-IsSound scripted (codes "http://h") (codes "t") history (omega arith)

abbrev pub waiting : Pusher
waiting = record start {
  pending =
      record { body = codes "one"; points = 1; at = 3 }
      ∷ record { body = codes "two"; points = 2; at = 4 }
      ∷ [];
}

flush_pending-Flushed_example :
    Flushed scripted waiting
      (fine ∷ busy ∷ [])
      (flush_pending scripted waiting (fine ∷ busy ∷ [])).0
      (flush_pending scripted waiting (fine ∷ busy ∷ [])).1
flush_pending-Flushed_example = flush_pending-Flushed scripted waiting (fine ∷ busy ∷ [])

send-Settled_example :
    (f : Pusher) × (w : List Reply) × Flushed scripted waiting (fine ∷ busy ∷ []) f w
    × Settled scripted f (codes "new") 3 (send scripted waiting (fine ∷ busy ∷ []) (codes "new") 3)
send-Settled_example = send-Settled scripted waiting (fine ∷ busy ∷ []) (codes "new") 3 refl

send_with_retry-Tried_example :
    Tried scripted start 4 (send_with_retry scripted start (busy ∷ fine ∷ []) (codes "b") backoff)
send_with_retry-Tried_example =
    send_with_retry-Tried scripted backoff start (busy ∷ fine ∷ []) (codes "b")

send_once-SentOnce_example :
    SentOnce scripted start (send_once scripted start (busy ∷ fine ∷ []) (codes "b") 1)
send_once-SentOnce_example = send_once-SentOnce scripted start (busy ∷ fine ∷ []) (codes "b") 1

post-Refuses_example : Refuses (answer 401 (codes "no"))
unfolding post compress exchange retryable new next_reply trim_space
post-Refuses_example =
    post-Refuses scripted start (answer 401 (codes "no") ∷ []) (codes "b")
      (http_error 401 (codes "no")) refl refl
