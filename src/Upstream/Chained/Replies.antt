-- ===== src/Upstream/Chained/Replies.antt =====
-- The reply of a hub behind a hub is the reply of the first.
use claw_proxy_hub_next.Base.{
  String, append, str_eq, eq_iff, Bool, true, false, none, some, List, [], ◌∷◌, ◌++◌, lookup, ◌≡◌,
  refl, sym, ap, ◌∙◌, Bool-cases, inl, inr, Option-cases, GoMap, append-nil_text,
}
use claw_proxy_hub_next.Gateway.Envelope.{
  StreamEvent, message_start, content_delta, tool_call_delta, message_finish, task_failed, not_set,
}
use claw_proxy_hub_next.Gateway.ToolCalls.{ToolCallTracker, resolve}
use claw_proxy_hub_next.Gateway.Reply.{reply_of}
use claw_proxy_hub_next.Gateway.Aggregate.{
  tools_in_order, AggrTool, AggregateCore, new_core, feed, feed_call, feed_all,
}
use claw_proxy_hub_next.Gateway.OpenAi.{
  OpenAiState, new_openai_state, tool_chunk, convert_event, encode,
}
use claw_proxy_hub_next.Upstream.Emits.{each-append}
use claw_proxy_hub_next.Upstream.IntMaps.{at}
use claw_proxy_hub_next.Upstream.OpenAi.Parsing.{
  Parser, new_parser, Step, texts, feed_choice, feed_chunk, note_reason, finish, or_default,
}
use claw_proxy_hub_next.Gateway.Usage.{openai_usage_payload}
use claw_proxy_hub_next.Upstream.OpenAi.Usage.{envelope_usage}
use claw_proxy_hub_next.Upstream.Usages.{openai_read}
use claw_proxy_hub_next.Upstream.Chained.Calls.{
  known, IsSynced, known_none, known_some, resolve_nonempty, resync, parse_call, parse_more,
  new_call, more_call,
}
use claw_proxy_hub_next.Upstream.Chained.{choice_of, chunk_of, parse}

append-nothing : (s t : String) → str_eq t "" ≡ true → append s t ≡ s
append-nothing s t e = ap (append s) ((eq_iff t "").0 e) ∙ append-nil_text s

module _ (to_lower : String → String) (hex hex' : String) where
  -- An event at the first hub, its frames, and what the second hub makes of them.
  abbrev Follows : OpenAiState → Parser → AggregateCore → AggregateCore → StreamEvent → Type 0
  Follows s p c d ev =
      let (s', frames) = convert_event hex s ev in
      let (p', evs) = parse to_lower p frames in
      IsSynced s' p' (feed hex c ev) (feed_all hex' d evs)

  follow_named :
      (id arguments : String) (s : OpenAiState) (p : Parser) (c d : AggregateCore)
      → str_eq id "" ≡ false
      → IsSynced s p c d
      → let name = c.track.last_name in
        let (s', frames) = tool_chunk id name arguments (lookup id s.tool_idx) s in
        let (p', evs) = parse to_lower p frames in
        IsSynced s' p' (feed_call id name arguments (lookup id c.tools) c) (feed_all hex' d evs)
  unfolding tool_chunk
  follow_named id arguments s p c d named y =
      let name = c.track.last_name in
      elim (Option-cases (lookup id s.tool_idx)) [
        | inl miss ↦
            let miss_c : lookup id c.tools ≡ none =
              known_none (lookup id c.tools) (sym (y.agree id) ∙ ap known miss) in
            rw (miss, miss_c, parse_call to_lower p s.next_idx s.id s.model id name arguments)
              (new_call hex' id arguments named s p c d y miss)
        | inr (i, hit) ↦
            let (t, hit_c) = known_some (lookup id c.tools) (sym (y.agree id) ∙ ap known hit) in
            rw (hit, hit_c, parse_more to_lower p i s.id s.model arguments)
              (more_call hex' id arguments named s p c d i t y hit hit_c)
      ]

  -- An event without a call: only what is listed can change.
  carry :
      {s : OpenAiState} {p : Parser} {c d : AggregateCore} (model stop : String) (over : Bool)
      (c' d' : AggregateCore)
      → IsSynced s p c d
      → c'.track ≡ c.track
      → d'.track ≡ d.track
      → c'.tools ≡ c.tools
      → d'.tools ≡ d.tools
      → c'.order ≡ c.order
      → d'.order ≡ d.order
      → d'.text ≡ c'.text
      → d'.reasoning ≡ c'.reasoning
      → IsSynced
          (record s { model = model })
          (record p { pending_stop = stop; sent_finish = over })
          c'
          d'
  carry {s} {p} {c} {d} model stop over c' d' y ct dt cs ds co do' text reasoning = record {
    tracked = y.tracked ∙ sym ct;
    text = text;
    reasoning = reasoning;
    tools = ds ∙ y.tools ∙ sym cs;
    order = do' ∙ y.order ∙ sym co;
    agree = λ k. y.agree k ∙ ap (λ (m : GoMap AggrTool). known (lookup k m)) (sym cs);
    ids = y.ids;
    fresh = y.fresh;
    quiet = λ h.
        let (last, names) = y.quiet (ap (λ (t : ToolCallTracker). t.last_name) (sym ct) ∙ h) in
        (ap (λ (t : ToolCallTracker). t.last_name) dt ∙ last, names);
  }

  follow :
      (s : OpenAiState) (p : Parser) (c d : AggregateCore) (ev : StreamEvent)
      → IsSynced s p c d
      → Follows s p c d ev
  unfolding convert_event feed feed_all parse choice_of feed_chunk feed_choice note_reason texts
      resolve finish or_default
  follow s p c d (message_start model) y =
      carry model p.pending_stop p.sent_finish (record c { model = model }) d y refl refl refl refl
        refl refl y.text y.reasoning
  follow s p c d (content_delta t true) y = elim (Bool-cases (str_eq t "")) [
    | inl e ↦
        let whole : append c.reasoning t ≡ c.reasoning = append-nothing c.reasoning t e in
        rw e (
          carry s.model p.pending_stop p.sent_finish (record c { reasoning = append c.reasoning t })
            d y refl refl refl refl refl refl y.text (y.reasoning ∙ sym whole))
    | inr e ↦
        rw (e, e)
          (carry s.model p.pending_stop p.sent_finish
            (record c { reasoning = append c.reasoning t })
            (record d { reasoning = append d.reasoning t }) y refl refl refl refl refl refl y.text
            (ap (λ x. append x t) y.reasoning))
  ]
  follow s p c d (content_delta t false) y = elim (Bool-cases (str_eq t "")) [
    | inl e ↦
        let whole : append c.text t ≡ c.text = append-nothing c.text t e in
        rw e (
          carry s.model p.pending_stop p.sent_finish (record c { text = append c.text t }) d y refl
            refl refl refl refl refl (y.text ∙ sym whole) y.reasoning)
    | inr e ↦ rw e (
        carry s.model p.pending_stop p.sent_finish (record c { text = append c.text t })
          (record d { text = append d.text t }) y refl refl refl refl refl refl
          (ap (λ x. append x t) y.text) y.reasoning)
  ]
  follow s p c d (tool_call_delta ev) y =
      let (track, id, name) = resolve hex c.track ev in
      rw y.tracked (
        follow_named id ev.arguments_delta (record s { tools = track }) p
          (record c { track = track }) d (resolve_nonempty hex c.track ev)
          (resync hex s p c d ev y))
  follow s p c d (message_finish reason none) y =
      let c' : AggregateCore = record c { finish = reason } in
      elim (Bool-cases (str_eq reason "")) [
        | inl e ↦ rw e (
            carry s.model p.pending_stop p.sent_finish c' d y refl refl refl refl refl refl y.text
              y.reasoning)
        | inr e ↦
            rw (e, e)
              (carry s.model reason p.sent_finish c' d y refl refl refl refl refl refl y.text
                y.reasoning)
      ]
  follow s p c d (message_finish reason (some u)) y =
      let c' : AggregateCore = record c { finish = reason; usage = u } in
      let w = envelope_usage to_lower (openai_read (openai_usage_payload (some u))) in
      let d' : String → AggregateCore =
        λ stop. record d { finish = or_default stop "stop"; usage = w } in
      elim (Bool-cases (str_eq reason "")) [
        | inl e ↦ elim (Bool-cases p.sent_finish) [
          | inl e' ↦
              rw (e, e')
                (carry s.model p.pending_stop true c' d y refl refl refl refl refl refl y.text
                  y.reasoning)
          | inr e' ↦
              rw (e, e')
                (carry s.model p.pending_stop true c' (d' p.pending_stop) y refl refl refl refl refl
                  refl y.text y.reasoning)
        ]
        | inr e ↦ elim (Bool-cases p.sent_finish) [
          | inl e' ↦
              rw (e, e, e')
                (carry s.model reason true c' d y refl refl refl refl refl refl y.text y.reasoning)
          | inr e' ↦
              rw (e, e, e')
                (carry s.model reason true c' (d' reason) y refl refl refl refl refl refl y.text
                  y.reasoning)
        ]
      ]
  follow s p c d (task_failed e detail) y = y
  follow s p c d not_set y = y

feed_all-append :
    (hex : String) (c : AggregateCore) (xs ys : List StreamEvent)
    → feed_all hex c (xs ++ ys) ≡ feed_all hex (feed_all hex c xs) ys
unfolding feed_all
feed_all-append hex c [] ys = refl
feed_all-append hex c (x ∷ xs) ys = feed_all-append hex (feed hex c x) xs ys

start_synced :
    (model model' hex12 : String)
    → IsSynced (new_openai_state hex12) new_parser (new_core model) (new_core model')
unfolding at lookup
start_synced model model' hex12 = record {
  tracked = refl;
  text = refl;
  reasoning = refl;
  tools = refl;
  order = refl;
  agree = λ k. refl;
  ids = λ k i h. absurd (cc);
  fresh = λ i h. refl;
  quiet = λ h. (refl, λ i. refl);
}

reply_of-IsSynced :
    (s : OpenAiState) (p : Parser) (c d : AggregateCore)
    → IsSynced s p c d
    → reply_of d ≡ reply_of c
unfolding reply_of tools_in_order
reply_of-IsSynced s p c d y = cc (y.text, y.reasoning, y.tools, y.order)

module _ (to_lower : String → String) (hex hex' : String) where
  follow_all :
      (s : OpenAiState) (p : Parser) (c d : AggregateCore) (evs : List StreamEvent)
      → IsSynced s p c d
      → let (s', frames) = encode hex s evs in
        let (p', heard) = parse to_lower p frames in
        IsSynced s' p' (feed_all hex c evs) (feed_all hex' d heard)
  unfolding encode feed_all parse
  follow_all s p c d [] y = y
  follow_all s p c d (ev ∷ evs) y =
      let (s', frames) = convert_event hex s ev in
      let (p', heard) : Step = parse to_lower p frames in
      let now : IsSynced s' p' (feed hex c ev) (feed_all hex' d heard) =
        follow to_lower hex hex' s p c d ev y in
      let later = follow_all s' p' (feed hex c ev) (feed_all hex' d heard) evs now in
      let rest = (encode hex s' evs).1 in
      rw
        (
          each-append (λ q f. feed_chunk to_lower q (chunk_of f)) p frames rest,
          feed_all-append hex' d heard (parse to_lower p' rest).1,
        )
        later

  -- A hub whose upstream is another hub ends with the reply of that hub: from the frames that the
  -- first encodes for any events, the second's upstream parser makes events whose aggregate has the
  -- same text, the same thinking and the same tool calls in the same order.
  pub reply_of-parse :
      (hex12 model model' : String) (evs : List StreamEvent)
      → let (s, frames) = encode hex (new_openai_state hex12) evs in
        let (p, heard) = parse to_lower new_parser frames in
        reply_of (feed_all hex' (new_core model') heard)
        ≡ reply_of (feed_all hex (new_core model) evs)
  reply_of-parse hex12 model model' evs = reply_of-IsSynced _ _ _ _ (
      follow_all (new_openai_state hex12) new_parser (new_core model) (new_core model') evs
        (start_synced model model' hex12))
