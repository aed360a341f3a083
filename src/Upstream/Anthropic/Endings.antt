-- ===== src/Upstream/Anthropic/Endings.antt =====
-- How the streams of the Anthropic upstream parser end.
use claw_proxy_hub_next.Base.{
  ℕ, ◌+◌, String, str_eq, Option, none, some, List, if◌then◌else◌, ◌≡◌, arith, chosen,
}
use claw_proxy_hub_next.Upstream.Emits.{
  data_of, each, is_finish, total, total-append, Counts, each-Counts,
}
use claw_proxy_hub_next.Upstream.Anthropic.{
  UpstreamEvent, Parser, new_parser, Step, finish, map_stop, block_delta, message_delta, feed_event,
  close, feed_decoded, feed_payload, feed, run,
}

sent : Parser → ℕ
sent p = if p.sent_finish then 1 else 0

finish-Counts : (p : Parser) (reason : String) → Counts is_finish sent p (finish p reason)
unfolding finish sent
finish-Counts p reason = ground arith

total-block_delta : (p : Parser) (ev : UpstreamEvent) → total is_finish (block_delta p ev) ≡ 0
unfolding block_delta
total-block_delta p ev = ground arith

message_delta-Counts :
    (p : Parser) (ev : UpstreamEvent) → Counts is_finish sent p (message_delta p ev)
unfolding message_delta sent
message_delta-Counts p ev =
    chosen (Counts is_finish sent p) (str_eq ev.stop_reason "") _ _ (λ e. omega arith)
      (λ e. finish-Counts _ (map_stop ev.stop_reason))

feed_event-Counts : (p : Parser) (ev : UpstreamEvent) → Counts is_finish sent p (feed_event p ev)
unfolding feed_event sent
feed_event-Counts p ev =
    chosen (Counts is_finish sent p) (str_eq ev.type "message_start") _ _ (λ e. omega arith)
      λ e.
        chosen (Counts is_finish sent p) (str_eq ev.type "content_block_start") _ _
          (λ e. omega arith)
          λ e.
            chosen (Counts is_finish sent p) (str_eq ev.type "content_block_delta") _ _
              (λ e. omega (arith, total-block_delta p ev))
              λ e.
                chosen (Counts is_finish sent p) (str_eq ev.type "message_delta") _ _
                  (λ e. message_delta-Counts p ev)
                  λ e.
                    chosen (Counts is_finish sent p) (str_eq ev.type "message_stop") _ _
                      (λ e. finish-Counts p "stop") (λ e. omega arith)

module _ (decode : String → Option UpstreamEvent) where
  feed_decoded-Counts :
      (p : Parser) (ev : Option UpstreamEvent) → Counts is_finish sent p (feed_decoded decode p ev)
  feed_decoded-Counts p none = omega arith
  feed_decoded-Counts p (some ev) = feed_event-Counts p ev

  feed_payload-Counts :
      (p : Parser) (payload : Option String)
      → Counts is_finish sent p (feed_payload decode p payload)
  feed_payload-Counts p none = omega arith
  feed_payload-Counts p (some payload) =
      chosen (Counts is_finish sent p) (str_eq payload "") _ _ (λ e. omega arith)
        (λ e. feed_decoded-Counts p (decode payload))

  feed-Counts : (p : Parser) (line : String) → Counts is_finish sent p (feed decode p line)
  unfolding feed
  feed-Counts p line = feed_payload-Counts p (data_of line)

  -- Whatever lines an Anthropic upstream sends, the stream that `Finish` ends has one MessageFinish.
  pub run_finishes_once : (lines : List String) → total is_finish (run decode lines).1 ≡ 1
  unfolding run close sent
  run_finishes_once lines =
      let (p, evs) : Step = each (feed decode) new_parser lines in
      let counted : sent p ≡ 0 + total is_finish evs =
        each-Counts is_finish sent (feed decode) feed-Counts new_parser lines in
      ground (arith, counted, total-append is_finish evs (close p))
