-- ===== src/Gateway/OpenAi/Roundtrip.antt =====
-- An OpenAI client of the stream has the reply that the non-streaming aggregate has.
use claw_proxy_hub_next.Base.{
  ℕ, suc, ◌+◌, String, append, str_eq, ◌≡◌, refl, sym, ap, ◌∙◌, true, false, Option, none, some,
  List, [], ◌∷◌, ◌++◌, lookup, insert, insert_new, values, length, length-append, arith, Bool-cases,
  inl, inr, Option-cases,
}
use claw_proxy_hub_next.Gateway.Envelope.{
  StreamEvent, message_start, content_delta, tool_call_delta, message_finish, task_failed, not_set,
}
use claw_proxy_hub_next.Gateway.ToolCalls.{resolve}
use claw_proxy_hub_next.Gateway.Aggregate.{
  AggrTool, AggregateCore, new_core, feed, feed_call, feed_all,
}
use claw_proxy_hub_next.Gateway.Aggregate.Order.{tools_in_order-feed_all}
use claw_proxy_hub_next.Gateway.Reply.{Reply, no_reply, reply_of, extend}
use claw_proxy_hub_next.Gateway.OpenAi.{
  OpenAiState, Frame, new_openai_state, tool_chunk, convert_event, encode,
}
use claw_proxy_hub_next.Gateway.OpenAi.Client.{receive, assemble}

-- The calls of a map, numbered from `n` on.
number : ℕ → List (String × AggrTool) → List (String × ℕ)
number n [] = []
number n ((k, v) ∷ m) = (k, n) ∷ number (suc n) m

lookup-number-none :
    (k : String) (n : ℕ) (m : List (String × AggrTool))
    → lookup k m ≡ none
    → lookup k (number n m) ≡ none
unfolding lookup number
lookup-number-none k n [] h = refl
lookup-number-none k n ((j, v) ∷ m) h = ground (arith, lookup-number-none k (suc n) m)

number-append :
    (k : String) (v : AggrTool) (n : ℕ) (m : List (String × AggrTool))
    → number n (m ++ (k, v) ∷ []) ≡ number n m ++ (k, n + length m) ∷ []
unfolding number
number-append k v n [] = ground arith
number-append k v n ((j, w) ∷ m) = ground (arith, number-append k v (suc n) m)

number-insert_old :
    (k : String) (v w : AggrTool) (n : ℕ) (m : List (String × AggrTool))
    → lookup k m ≡ some w
    → number n (insert k v m) ≡ number n m
unfolding number lookup insert
number-insert_old k v w n [] h = cc
number-insert_old k v w n ((j, x) ∷ m) h = ground (arith, number-insert_old k v w (suc n) m)

values-append :
    (m : List (String × AggrTool)) (k : String) (v : AggrTool)
    → values (m ++ (k, v) ∷ []) ≡ values m ++ v ∷ []
values-append [] k v = refl
values-append ((j, w) ∷ m) k v = ap (λ (r : List AggrTool). w ∷ r) (values-append m k v)

length-values : (m : List (String × AggrTool)) → length (values m) ≡ length m
length-values [] = refl
length-values (e ∷ m) = ap suc (length-values m)

-- A known call has a number, and more arguments at that number are more arguments in the map.
number_known :
    (k arguments : String) (t : AggrTool) (n : ℕ) (m : List (String × AggrTool))
    → lookup k m ≡ some t
    → (i : ℕ) × (lookup k (number n m) ≡ some (n + i))
      × (extend i arguments (values m)
          ≡ some (values (insert k (record t { input = append t.input arguments }) m)))
unfolding number lookup insert extend
number_known k arguments t n [] h = absurd (cc)
number_known k arguments t n ((j, v) ∷ m) h = elim (Bool-cases (str_eq j k)) [
  | inl e ↦ (0, ground arith, ground arith)
  | inr e ↦
      let (i, at, more) = number_known k arguments t (suc n) m (rw e at h) in
      (suc i, ground arith, ground arith)
]

length-insert_old :
    (k : String) (v w : AggrTool) (m : List (String × AggrTool))
    → lookup k m ≡ some w
    → length (insert k v m) ≡ length m
unfolding lookup insert
length-insert_old k v w [] h = cc
length-insert_old k v w ((j, x) ∷ m) h = ground (arith, length-insert_old k v w m)

-- What a client has when the aggregate is `c`.
abbrev view : AggregateCore → Reply
view c = record { text = c.text; reasoning = c.reasoning; calls = values c.tools }

-- The encoder and the aggregate have seen the same calls.
record IsSynced (s : OpenAiState) (c : AggregateCore) : Type 0 where
  tracked : s.tools ≡ c.track
  numbered : s.tool_idx ≡ number 0 c.tools
  next : s.next_idx ≡ length c.tools

call_step :
    (id name arguments : String) (s : OpenAiState) (c : AggregateCore) (found : Option AggrTool)
    → lookup id c.tools ≡ found
    → IsSynced s c
    → let (s', frames) = tool_chunk id name arguments (lookup id s.tool_idx) s in
      let c' = feed_call id name arguments found c in
      (assemble (view c) frames ≡ some (view c')) × IsSynced s' c'
unfolding tool_chunk feed_call assemble receive
call_step id name arguments s c none h y =
    let miss : lookup id s.tool_idx ≡ none = rw y.numbered (lookup-number-none id 0 c.tools h) in
    let t : AggrTool = record { id = id; name = name; input = append "" arguments } in
    let longer = insert_new id t c.tools h in
    rw miss (
      ground (arith, length-values c.tools, longer, values-append c.tools id t),
      record {
        tracked = y.tracked;
        numbered =
            insert_new id s.next_idx s.tool_idx miss
            ∙ rw (longer, number-append id t 0 c.tools, y.numbered, y.next) (ground arith);
        next = rw longer (omega (arith, y.next, length-append c.tools ((id, t) ∷ [])));
      },
    )
call_step id name arguments s c (some t) h y =
    let (i, at, more) = number_known id arguments t 0 c.tools h in
    let hit : lookup id s.tool_idx ≡ some i = rw y.numbered (ground arith) in
    let t' : AggrTool = record t { input = append t.input arguments } in
    rw hit (
      ground (arith, more),
      record {
        tracked = y.tracked;
        numbered = y.numbered ∙ sym (number-insert_old id t' t 0 c.tools h);
        next = y.next ∙ sym (length-insert_old id t' t c.tools h);
      },
    )

step :
    (hex : String) (s : OpenAiState) (c : AggregateCore) (ev : StreamEvent)
    → IsSynced s c
    → let (s', frames) = convert_event hex s ev in
      (assemble (view c) frames ≡ some (view (feed hex c ev))) × IsSynced s' (feed hex c ev)
unfolding convert_event feed assemble receive
step hex s c (message_start model) y =
    (refl, record { tracked = y.tracked; numbered = y.numbered; next = y.next })
step hex s c (content_delta text true) y =
    (refl, record { tracked = y.tracked; numbered = y.numbered; next = y.next })
step hex s c (content_delta text false) y =
    (refl, record { tracked = y.tracked; numbered = y.numbered; next = y.next })
step hex s c (tool_call_delta ev) y =
    let (track, id, name) = resolve hex c.track ev in
    rw y.tracked (
      call_step id name ev.arguments_delta (record s { tools = track }) (record c { track = track })
        (lookup id c.tools) refl (record { tracked = refl; numbered = y.numbered; next = y.next }))
step hex s c (message_finish reason none) y =
    (refl, record { tracked = y.tracked; numbered = y.numbered; next = y.next })
step hex s c (message_finish reason (some u)) y =
    (refl, record { tracked = y.tracked; numbered = y.numbered; next = y.next })
step hex s c (task_failed e detail) y = (refl, y)
step hex s c not_set y = (refl, y)

assemble-append :
    (r r' : Reply) (fs gs : List Frame)
    → assemble r fs ≡ some r'
    → assemble r (fs ++ gs) ≡ assemble r' gs
unfolding assemble
assemble-append r r' [] gs h = ground arith
assemble-append r r' (f ∷ fs) gs h = elim (Option-cases (receive r f)) [
  | inl e ↦ ground arith
  | inr (q, e) ↦ ground (arith, assemble-append q r' fs gs)
]

assemble-run :
    (hex : String) (s : OpenAiState) (c : AggregateCore) (evs : List StreamEvent)
    → IsSynced s c
    → assemble (view c) (encode hex s evs).1 ≡ some (view (feed_all hex c evs))
unfolding encode feed_all
assemble-run hex s c [] y = unfold assemble in refl
assemble-run hex s c (ev ∷ evs) y =
    let (now, y') = step hex s c ev y in
    assemble-append (view c) (view (feed hex c ev)) (convert_event hex s ev).1 _ now
    ∙ assemble-run hex (convert_event hex s ev).0 (feed hex c ev) evs y'

-- For every list of events, the client that assembles the streamed frames meets no frame that it
-- must refuse, and ends with the text, the thinking and the tool calls, in order and with their
-- names and whole arguments, of the non-streaming aggregate of the same events.
pub assemble-encode :
    (hex hex12 model : String) (evs : List StreamEvent)
    → assemble no_reply (encode hex (new_openai_state hex12) evs).1
      ≡ some (reply_of (feed_all hex (new_core model) evs))
assemble-encode hex hex12 model evs =
    assemble-run hex (new_openai_state hex12) (new_core model) evs
      (unfold number in record { tracked = refl; numbered = refl; next = refl })
    ∙ unfold reply_of in rw (tools_in_order-feed_all hex model evs)
