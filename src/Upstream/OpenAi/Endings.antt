-- ===== src/Upstream/OpenAi/Endings.antt =====
-- How the streams of `Parser` end, and what identifiers its calls have.
use claw_proxy_hub_next.Base.{
  ℕ, ◌+◌, String, str_eq, append, Bool, true, false, ◌||◌, Option, none, some, List, [], ◌∷◌, All,
  if◌then◌else◌, ◌≡◌, arith, Bool-cases, inl, inr, chosen, sprint_int, append_nonempty,
}
use claw_proxy_hub_next.Gateway.Envelope.{content_delta}
use claw_proxy_hub_next.Upstream.Emits.{
  data_of, each, is_finish, total, total-append, Counts, and_then-Counts, each-Counts, HasId,
  All-append, each-All,
}
use claw_proxy_hub_next.Upstream.IntMaps.{at}
use claw_proxy_hub_next.Upstream.OpenAi.Usage.{OpenAiUsage}
use claw_proxy_hub_next.Upstream.OpenAi.Parsing.{
  Chunk, Choice, ToolDelta, Parser, new_parser, Step, or_call, text_event, remember, feed_payload,
  texts, tool_call, finish, finish_with, note_reason, feed_choice, feed_chunk, feed, run, close,
}

-- The finishes that a parser has emitted.
sent : Parser → ℕ
sent p = if p.sent_finish then 1 else 0

total-texts : (c : Choice) → total is_finish (texts c) ≡ 0
unfolding texts
total-texts c = ground arith

text_event-HasId : (text : String) (reasoning : Bool) → All HasId (text_event text reasoning)
text_event-HasId text reasoning =
    chosen (All HasId) (str_eq text "") [] (content_delta text reasoning ∷ []) (λ e. tt)
      (λ e. (tt, tt))

HasId-texts : (c : Choice) → All HasId (texts c)
unfolding texts
HasId-texts c =
    All-append HasId _ (text_event c.content false) (text_event-HasId _ true)
      (text_event-HasId c.content false)

tool_call-Counts : (p : Parser) (tc : ToolDelta) → Counts is_finish sent p (tool_call p tc)
unfolding tool_call sent
tool_call-Counts p tc = ground arith

or_call_nonempty : (id : String) (i : ℕ) → str_eq (or_call id i) "" ≡ false
or_call_nonempty id i =
    chosen (λ s. str_eq s "" ≡ false) (str_eq id "") (append "call_" (sprint_int i)) id
      (λ e. append_nonempty "call_" (sprint_int i) (omega arith)) (λ e. e)

tool_call-HasId : (p : Parser) (tc : ToolDelta) → All HasId (tool_call p tc).1
unfolding tool_call
tool_call-HasId p tc =
    (or_call_nonempty (at "" tc.index (remember tc.index tc.id p.tool_ids)) tc.index, tt)

module _ (to_lower : String → String) where
  finish-Counts : (p : Parser) (u : OpenAiUsage) → Counts is_finish sent p (finish to_lower p u)
  unfolding finish sent
  finish-Counts p u = ground arith

  finish_with-Counts :
      (usage : Option OpenAiUsage) (p : Parser)
      → Counts is_finish sent p (finish_with to_lower usage p)
  finish_with-Counts none p = omega arith
  finish_with-Counts (some u) p = finish-Counts p u

  note_reason-Counts :
      (usage : Option OpenAiUsage) (r : Option String) (p : Parser)
      → Counts is_finish sent p (note_reason to_lower usage r p)
  unfolding note_reason
  note_reason-Counts usage none p = omega arith
  note_reason-Counts usage (some reason) p = elim (Bool-cases (str_eq reason "")) [
    | inl e ↦ rw e (omega arith)
    | inr e ↦ rw e (unfold sent in finish_with-Counts usage (record p { pending_stop = reason }))
  ]

  feed_choice-Counts :
      (usage : Option OpenAiUsage) (p : Parser) (c : Choice)
      → Counts is_finish sent p (feed_choice to_lower usage p c)
  unfolding feed_choice
  feed_choice-Counts usage p c =
      and_then-Counts is_finish sent p (p, texts c) _ (omega (arith, total-texts c))
        λ q.
          and_then-Counts is_finish sent q (each tool_call q c.tool_calls) _
            (each-Counts is_finish sent tool_call tool_call-Counts q c.tool_calls)
            (note_reason-Counts usage c.finish_reason)

  feed_chunk-Counts :
      (p : Parser) (chunk : Option Chunk) → Counts is_finish sent p (feed_chunk to_lower p chunk)
  unfolding feed_chunk
  feed_chunk-Counts p none = omega arith
  feed_chunk-Counts p (some chunk) =
      and_then-Counts is_finish sent p (each (feed_choice to_lower chunk.usage) p chunk.choices) _
        (each-Counts is_finish sent (feed_choice to_lower chunk.usage)
          (feed_choice-Counts chunk.usage) p chunk.choices)
        (finish_with-Counts chunk.usage)

  finish_with-HasId :
      (usage : Option OpenAiUsage) (p : Parser) → All HasId (finish_with to_lower usage p).1
  unfolding finish
  finish_with-HasId none p = tt
  finish_with-HasId (some u) p =
      chosen (λ (r : Step). All HasId r.1) p.sent_finish _ _ (λ e. tt) (λ e. (tt, tt))

  note_reason-HasId :
      (usage : Option OpenAiUsage) (r : Option String) (p : Parser)
      → All HasId (note_reason to_lower usage r p).1
  unfolding note_reason
  note_reason-HasId usage none p = tt
  note_reason-HasId usage (some reason) p =
      chosen (λ (r : Step). All HasId r.1) (str_eq reason "") _ _ (λ e. tt)
        (λ e. finish_with-HasId usage _)

  feed_choice-HasId :
      (usage : Option OpenAiUsage) (p : Parser) (c : Choice)
      → All HasId (feed_choice to_lower usage p c).1
  unfolding feed_choice
  feed_choice-HasId usage p c = All-append HasId (texts c) _ (HasId-texts c) (
      All-append HasId (each tool_call p c.tool_calls).1 _
        (each-All tool_call tool_call-HasId p c.tool_calls)
        (note_reason-HasId usage c.finish_reason _))

  feed_chunk-HasId : (p : Parser) (chunk : Option Chunk) → All HasId (feed_chunk to_lower p chunk).1
  unfolding feed_chunk
  feed_chunk-HasId p none = tt
  feed_chunk-HasId p (some chunk) =
      All-append HasId (each (feed_choice to_lower chunk.usage) p chunk.choices).1 _
        (each-All (feed_choice to_lower chunk.usage) (feed_choice-HasId chunk.usage) p
          chunk.choices)
        (finish_with-HasId chunk.usage _)

  module _ (decode : String → Option Chunk) where
    feed-Counts :
        (p : Parser) (line : String) → Counts is_finish sent p (feed to_lower decode p line)
    unfolding feed
    feed-Counts p line = of_payload (data_of line)
      where
        of_payload :
            (payload : Option String)
            → Counts is_finish sent p (feed_payload to_lower decode p payload)
        of_payload none = omega arith
        of_payload (some payload) =
            chosen (Counts is_finish sent p) (str_eq payload "" || str_eq payload "[DONE]") (p, [])
              _ (λ e. omega arith) (λ e. feed_chunk-Counts p (decode payload))

    feed-HasId : (p : Parser) (line : String) → All HasId (feed to_lower decode p line).1
    unfolding feed
    feed-HasId p line = of_payload (data_of line)
      where
        of_payload :
            (payload : Option String) → All HasId (feed_payload to_lower decode p payload).1
        of_payload none = tt
        of_payload (some payload) =
            chosen (λ (r : Step). All HasId r.1) (str_eq payload "" || str_eq payload "[DONE]")
              (p, []) _ (λ e. tt) (λ e. feed_chunk-HasId p (decode payload))

    -- Whatever lines an upstream sends, the events of the stream that `Finish` ends have exactly one
    -- MessageFinish, and every delta of a call has an identifier.
    pub run-finishes :
        (lines : List String)
        → let evs = (run to_lower decode lines).1 in (total is_finish evs ≡ 1) × All HasId evs
    unfolding run close sent
    run-finishes lines =
        let (p, evs) : Step = each (feed to_lower decode) new_parser lines in
        let counted : sent p ≡ 0 + total is_finish evs =
          each-Counts is_finish sent (feed to_lower decode) feed-Counts new_parser lines in
        (
          ground (arith, counted, total-append is_finish evs (close p)),
          All-append HasId evs (close p)
              (each-All (feed to_lower decode) feed-HasId new_parser lines)
              (chosen (All HasId) p.sent_finish [] _ (λ e. tt) (λ e. (tt, tt))),
        )
