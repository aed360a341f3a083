-- ===== src/Upstream/Responses/Endings.antt =====
-- How the streams of the Responses upstream parser begin and end.
use claw_proxy_hub_next.Base.{
  ℕ, ◌+◌, ◌≤◌, String, str_eq, ◌||◌, ◌∷◌, Bool, true, false, Option, none, some, List, [],
  if◌then◌else◌, ◌≡◌, arith, chosen,
}
use claw_proxy_hub_next.Gateway.Envelope.{content_delta}
use claw_proxy_hub_next.Upstream.Emits.{
  data_of, each, total, total-append, Counts, each-Counts, is_start, is_end,
}
use claw_proxy_hub_next.Upstream.Responses.{
  UpstreamEvent, Parser, new_parser, Step, created, call_added, arguments_delta, tool_args_done,
  finish, finish_with_error, completed, feed_event, feed_decoded, feed_payload, feed, run,
  first_non_empty,
}

started : Parser → ℕ
started p = if p.sent_start then 1 else 0

ended : Parser → ℕ
ended p = if p.sent_finish then 1 else 0

-- A step counts both in its state.
CountsBoth : Parser → Step → Type 0
CountsBoth p r = Counts is_start started p r × Counts is_end ended p r

created-Both : (p : Parser) (ev : UpstreamEvent) → CountsBoth p (created p ev)
unfolding created started ended CountsBoth
created-Both p ev = (ground arith, ground arith)

call_added-Both : (p : Parser) (ev : UpstreamEvent) → CountsBoth p (call_added p ev)
unfolding call_added started ended CountsBoth
call_added-Both p ev = (omega arith, omega arith)

arguments_delta-Both : (p : Parser) (ev : UpstreamEvent) → CountsBoth p (arguments_delta p ev)
unfolding arguments_delta started ended CountsBoth
arguments_delta-Both p ev = (omega arith, omega arith)

tool_args_done-Both : (p : Parser) (id args : String) → CountsBoth p (tool_args_done p id args)
unfolding tool_args_done started ended CountsBoth
tool_args_done-Both p id args = (ground arith, ground arith)

finish-Both : (p : Parser) → CountsBoth p (finish p)
unfolding finish started ended CountsBoth
finish-Both p = (ground arith, ground arith)

finish_with_error-Both :
    (p : Parser) (code : ℕ) (message : String) → CountsBoth p (finish_with_error p code message)
unfolding finish_with_error started ended CountsBoth
finish_with_error-Both p code message = (ground arith, ground arith)

completed-Both : (p : Parser) (ev : UpstreamEvent) → CountsBoth p (completed p ev)
unfolding completed started ended CountsBoth
completed-Both p ev = finish-Both (record p { usage = _; pending_stop = _ })

nothing-Both : (p : Parser) → CountsBoth p (p, [])
unfolding CountsBoth
nothing-Both p = (omega arith, omega arith)

text-Both :
    (p : Parser) (c : Bool) (t : String)
    → CountsBoth p (p, if c then [] else content_delta t false ∷ [])
text-Both p true t = nothing-Both p
text-Both p false t = unfold CountsBoth in (omega arith, omega arith)

finish_ends : (p : Parser) → ended (finish p).0 ≡ 1
unfolding finish ended
finish_ends p = ground arith

starts_at_most_one : (p : Parser) → started p ≤ 1
unfolding started
starts_at_most_one p = ground arith

feed_event-Both : (p : Parser) (ev : UpstreamEvent) → CountsBoth p (feed_event p ev)
unfolding feed_event
feed_event-Both p ev =
    let is = str_eq ev.type in
    chosen (CountsBoth p) (is "response.created" || is "response.in_progress") _ _
      (λ e. created-Both p ev)
      λ e.
        chosen (CountsBoth p) (is "response.output_text.delta") _ _
          (λ e. text-Both p (str_eq ev.delta "") ev.delta)
          λ e.
            chosen (CountsBoth p) (is "response.output_item.added") _ _
              (λ e.
                chosen (CountsBoth p) (str_eq ev.item.type "function_call") _ _
                  (λ e. call_added-Both p ev) (λ e. nothing-Both p))
              λ e.
                chosen (CountsBoth p) (is "response.function_call_arguments.delta") _ _
                  (λ e. arguments_delta-Both p ev)
                  λ e.
                    chosen (CountsBoth p) (is "response.function_call_arguments.done") _ _
                      (λ e.
                        tool_args_done-Both p (first_non_empty ev.item_id ev.call_id) ev.arguments)
                      λ e.
                        chosen (CountsBoth p) (is "response.output_item.done") _ _
                          (λ e.
                            chosen (CountsBoth p) (str_eq ev.item.type "function_call") _ _
                              (λ e.
                                tool_args_done-Both p (first_non_empty ev.item.id ev.item.call_id)
                                  ev.item.arguments)
                              (λ e. nothing-Both p))
                          λ e.
                            chosen (CountsBoth p)
                              (is "response.completed" || is "response.incomplete") _ _
                              (λ e. completed-Both p ev)
                              λ e.
                                chosen (CountsBoth p) (is "response.failed") _ _
                                  (λ e. finish_with_error-Both p 502 _)
                                  λ e.
                                    chosen (CountsBoth p) (is "error") _ _
                                      (λ e. finish_with_error-Both p 502 _) (λ e. nothing-Both p)

module _ (decode : String → Option UpstreamEvent) where
  feed_decoded-Both :
      (p : Parser) (ev : Option UpstreamEvent) → CountsBoth p (feed_decoded decode p ev)
  feed_decoded-Both p none = nothing-Both p
  feed_decoded-Both p (some ev) = feed_event-Both p ev

  feed_payload-Both :
      (p : Parser) (payload : Option String) → CountsBoth p (feed_payload decode p payload)
  feed_payload-Both p none = nothing-Both p
  feed_payload-Both p (some payload) =
      chosen (CountsBoth p) (str_eq payload "" || str_eq payload "[DONE]") _ _ (λ e. nothing-Both p)
        (λ e. feed_decoded-Both p (decode payload))

  feed-Both : (p : Parser) (line : String) → CountsBoth p (feed decode p line)
  unfolding feed
  feed-Both p line = feed_payload-Both p (data_of line)

  -- Whatever lines a Responses upstream sends, the stream that `Finish` ends has one ending, a
  -- MessageFinish or a TaskFailed, and one MessageStart at most.
  pub run_ends_once :
      (lines : List String)
      → let evs = (run decode lines).1 in (total is_end evs ≡ 1) × (total is_start evs ≤ 1)
  unfolding run CountsBoth started ended
  run_ends_once lines =
      let (p, evs) : Step = each (feed decode) new_parser lines in
      let starts : started p ≡ 0 + total is_start evs =
        each-Counts is_start started (feed decode) (λ q line. (feed-Both q line).0) new_parser
          lines in
      let ends : ended p ≡ 0 + total is_end evs =
        each-Counts is_end ended (feed decode) (λ q line. (feed-Both q line).1) new_parser lines in
      let last : CountsBoth p (finish p) = finish-Both p in
      (
        omega (arith, ends, last.1, finish_ends p, total-append is_end evs (finish p).1),
        omega (
          arith,
          starts,
          last.0,
          starts_at_most_one (finish p).0,
          total-append is_start evs (finish p).1,
        ),
      )
