-- ===== src/Gateway/Anthropic/Discipline.antt =====
-- Every stream keeps the block discipline of an Anthropic message, and delivers the aggregate.
use claw_proxy_hub_next.Base.{
  ℕ, String, ◌==◌, ◌≡◌, ◌≢◌, refl, sym, ap, ◌∙◌, true, false, Option, none, some, List, [], ◌∷◌,
  ◌++◌, map, lookup, values, arith, Bool-cases, inl, inr, Option-cases, All,
}
use claw_proxy_hub_next.Gateway.Envelope.{Usage, StreamEvent, message_finish}
use claw_proxy_hub_next.Gateway.Usage.{AnthUsage}
use claw_proxy_hub_next.Gateway.Aggregate.{AggrTool, AggregateCore, new_core, feed_all}
use claw_proxy_hub_next.Gateway.Anthropic.{
  AnthState, Frame, content_block_stop, message_delta, message_stop, new_anth_state, stop_thinking,
  stop_frames, finish_frames, convert_event, encode, sorted_values, finish_usage, map_stop_reason,
}
use claw_proxy_hub_next.Gateway.Anthropic.Client.{
  Block, text, tool, Message, no_message, put, update, is_open, receive, assemble,
}
use claw_proxy_hub_next.Gateway.Anthropic.Blocks.{elem}
use claw_proxy_hub_next.Gateway.Anthropic.ToolBlocks.{elem-lookup}
use claw_proxy_hub_next.Gateway.Anthropic.Stops.{close, close_all, stops, sorted-Rising}
use claw_proxy_hub_next.Gateway.Anthropic.Steps.{IsSynced, assemble-append, stop_thinking_step}
use claw_proxy_hub_next.Gateway.Anthropic.Run.{IsBefore, run}

-- A message that has ended: no block is open, its text and its thinking are the aggregate's, and its
-- tool blocks are the aggregate's calls, whose places are listed.
pub record IsEnded (c : AggregateCore) (m : Message) : Type 0 where
  pub shut : (i : ℕ) → is_open (m.blocks i) ≡ false
  pub body : m.body ≡ c.text
  pub thoughts : m.thoughts ≡ c.reasoning
  pub places : List (String × ℕ)
  pub calls :
      (id : String) (t : AggrTool)
      → lookup id c.tools ≡ some t
      → (i : ℕ) × (lookup id places ≡ some i) × (m.blocks i ≡ tool false t)
  pub only :
      (i : ℕ) (t : AggrTool)
      → m.blocks i ≡ tool false t
      → (id : String) × (lookup id places ≡ some i) × (lookup id c.tools ≡ some t)

-- The client takes the frames, and its message has then ended.
pub record Ends (m : Message) (fs : List Frame) (c : AggregateCore) : Type 0 where
  pub after : Message
  pub taken : assemble m fs ≡ some after
  pub ended : IsEnded c after

module _ (s : AnthState) (c : AggregateCore) (m : Message) (y : IsSynced s c m)
    (idle : s.think_block ≡ none) where
  abbrev js : List ℕ
  js = values s.tool_blocks

  -- The blocks after the stop of the text block `n`.
  abbrev after_text : Option ℕ → ℕ → Block
  after_text none = m.blocks
  after_text (some j) = update m.blocks j (text false)

  tool_stays :
      (n : Option ℕ) (i : ℕ) (t : AggrTool)
      → s.text_block ≡ n
      → m.blocks i ≡ tool true t
      → after_text n i ≡ tool true t
  tool_stays none i t p h = h
  tool_stays (some j) i t p h = ground (arith, y.agree.writes j p)

  owned_shut : (i : ℕ) → elem i js ≡ false → s.text_block ≢ some i → is_open (m.blocks i) ≡ false
  owned_shut i e other = elim (Bool-cases (is_open (m.blocks i))) [
    | inl o ↦ elim (y.agree.only i o) [
      | inl q ↦ absurd (cc)
      | inr q ↦ elim q [
        | inl w ↦ absurd (other w)
        | inr (k, w) ↦ absurd (cc (elem-lookup k i s.tool_blocks w))
      ]
    ]
    | inr o ↦ o
  ]

  text_shut :
      (n : Option ℕ) (i : ℕ)
      → s.text_block ≡ n
      → elem i js ≡ false
      → is_open (after_text n i) ≡ false
  text_shut none i p e = owned_shut i e (λ q. cc)
  text_shut (some j) i p e = elim (Bool-cases (i == j)) [
    | inl q ↦ rw q
    | inr q ↦ rw q (owned_shut i e (λ w. ground arith))
  ]

  closes-shut :
      (n : Option ℕ) (i : ℕ) → s.text_block ≡ n → is_open (close_all (after_text n) js i) ≡ false
  closes-shut n i p = elim (Bool-cases (elem i js)) [
    | inl e ↦ rw e (ground arith)
    | inr e ↦ rw e (text_shut n i p e)
  ]

  stays_unclosed : (n : Option ℕ) (i : ℕ) (t : AggrTool) → after_text n i ≡ tool false t → ⊥
  stays_unclosed none i t h = y.agree.unclosed i t h
  stays_unclosed (some j) i t h = elim (Bool-cases (i == j)) [
    | inl e ↦ (let q : text false ≡ tool false t = rw e at h in cc)
    | inr e ↦ y.agree.unclosed i t (rw e at h)
  ]

  -- A closed tool block is a call's.
  closed_call :
      (n : Option ℕ) (i : ℕ) (t : AggrTool)
      → s.text_block ≡ n
      → close_all (after_text n) js i ≡ tool false t
      → (id : String) × (lookup id s.tool_blocks ≡ some i) × (lookup id c.tools ≡ some t)
  closed_call n i t p h = elim (Bool-cases (elem i js)) [
    | inr e ↦ absurd (stays_unclosed n i t (rw e at h))
    | inl e ↦
        let (u, shown) = y.agree.listed i e in
        let stays = tool_stays n i u p shown in
        let shut : close (after_text n i) ≡ tool false t = rw e at h in
        let same : tool false u ≡ tool false t = sym (ap close stays) ∙ shut in
        let open_now : is_open (m.blocks i) ≡ true = ap is_open shown in
        elim (y.agree.only i open_now) [
          | inl q ↦ absurd (cc)
          | inr q ↦ elim q [
            | inl w ↦ absurd (let z = y.agree.writes i w in cc)
            | inr (k, w) ↦
                let known = y.agree.known k i w in
                (k, w, (let a = known.found in let b = known.shown in cc))
          ]
        ]
  ]

  closes-IsEnded :
      (n : Option ℕ)
      → s.text_block ≡ n
      → IsEnded c (record m { blocks = close_all (after_text n) js })
  closes-IsEnded n p = record {
    shut = λ i. closes-shut n i p;
    body = y.body;
    thoughts = y.thoughts;
    places = s.tool_blocks;
    only = λ i t h. closed_call n i t p h;
    calls = λ id t h. elim (Option-cases (lookup id s.tool_blocks)) [
      | inl e ↦ absurd (cc (y.agree.unknown id e, h))
      | inr (i, e) ↦
          let k = y.agree.known id i e in
          (
            i,
            e,
            rw (elem-lookup id i s.tool_blocks e, tool_stays n i k.call p k.shown)
                (cc (k.found, h)),
          )
    ];
  }

  tools_open :
      (n : Option ℕ) (i : ℕ) → s.text_block ≡ n → elem i js ≡ true → is_open (after_text n i) ≡ true
  tools_open n i p e = let (t, h) = y.agree.listed i e in rw (tool_stays n i t p h)

  stops-taken :
      (n : Option ℕ) (reason : String) (u : AnthUsage)
      → s.text_block ≡ n
      → assemble m (
          stop_frames n
          ++ (map content_block_stop js ++ message_delta reason u ∷ message_stop ∷ []))
        ≡ some (record m { blocks = close_all (after_text n) js })
  unfolding stop_frames
  stops-taken none reason u p =
      stops m 0 js s.next_block _ y.agree.rising (λ i e. tools_open none i p e)
      ∙ unfold assemble receive in refl
  stops-taken (some j) reason u p =
      assemble-append m (put m j (text false)) (content_block_stop j ∷ []) _
        (unfold assemble receive in ground (arith, y.agree.writes j p))
      ∙ stops (put m j (text false)) 0 js s.next_block _ y.agree.rising
          (λ i e. tools_open (some j) i p e)
      ∙ unfold assemble receive in refl

  stops-Ends :
      (n : Option ℕ) (reason : String) (u : AnthUsage)
      → s.text_block ≡ n
      → Ends m
          (stop_frames n
            ++ (map content_block_stop (sorted_values js)
                ++ message_delta reason u ∷ message_stop ∷ []))
          c
  stops-Ends n reason u p = record {
    after = record m { blocks = close_all (after_text n) js };
    taken = rw (sorted-Rising 0 js s.next_block y.agree.rising) (stops-taken n reason u p);
    ended = closes-IsEnded n p;
  }

abbrev with_stop : AnthState → String → AnthState
with_stop s stop = record s { stop_reason = stop }

stopped_step :
    (s : AnthState) (c : AggregateCore) (m : Message) (stop : String)
    → IsSynced s c m
    → IsSynced (with_stop s stop) c m
stopped_step s c m stop y = record {
  tracked = y.tracked;
  next = y.next;
  body = y.body;
  thoughts = y.thoughts;
  agree = y.agree;
}

think_block-stop_thinking :
    (n : Option ℕ) (s : AnthState) → s.think_block ≡ n → (stop_thinking n s).0.think_block ≡ none
unfolding stop_thinking
think_block-stop_thinking n s p = ground arith

finish-Ends :
    (reason : String) (usage : Option Usage) (s : AnthState) (c : AggregateCore) (m : Message)
    → IsSynced s c m
    → Ends m (finish_frames reason usage s).1 c
unfolding finish_frames
finish-Ends reason usage s c m y =
    let s₀ : AnthState = with_stop s (map_stop_reason reason) in
    let s₁ : AnthState = (stop_thinking s.think_block s₀).0 in
    let p =
      stop_thinking_step s.think_block s₀ c m refl
        (stopped_step s c m (map_stop_reason reason) y) in
    let r =
      stops-Ends s₁ c p.after p.synced (think_block-stop_thinking s.think_block s₀ refl)
        s₁.text_block (map_stop_reason reason) (finish_usage usage s₁).1 refl in
    record {
      after = r.after;
      taken = assemble-append m p.after _ _ p.taken ∙ r.taken;
      ended = r.ended;
    }

start :
    (hex12 model model' : String)
    → IsSynced (new_anth_state hex12 model) (new_core model') no_message
start hex12 model model' = record {
  tracked = refl;
  next = refl;
  body = refl;
  thoughts = refl;
  agree = record {
    thinks = λ i h. absurd (cc);
    writes = λ i h. absurd (cc);
    unknown = λ id h. unfold lookup in refl;
    known = λ id i h. absurd (unfold lookup in cc);
    fresh = λ i h. refl;
    rising = omega arith;
    listed = λ i h. absurd (cc);
    only = λ i h. absurd (cc);
    unclosed = λ i t h. absurd (cc);
  };
}

-- Take any events without a `MessageFinish`, and then one. The strict client takes every frame
-- that is sent: blocks start at 0, 1, 2 and so on, every delta falls into an open block of its own
-- kind, and every stop closes an open block. At the end no block is open, the text and the thinking
-- are the aggregate's, and each of the aggregate's calls stands, with its name and its whole
-- arguments, in a closed tool block.
pub encode-Ends :
    (hex hex12 model model' reason : String) (evs : List StreamEvent) (usage : Option Usage)
    → All IsBefore evs
    → let (s, frames) = encode hex (new_anth_state hex12 model) evs in
      Ends no_message
        (frames ++ (convert_event hex s (message_finish reason usage)).1)
        (feed_all hex (new_core model') evs)
unfolding convert_event
encode-Ends hex hex12 model model' reason evs usage before =
    let (s, frames) = encode hex (new_anth_state hex12 model) evs in
    let c = feed_all hex (new_core model') evs in
    let p =
      run hex (new_anth_state hex12 model) (new_core model') no_message evs before
        (start hex12 model model') in
    let r = finish-Ends reason usage s c p.after p.synced in
    record {
      after = r.after;
      taken = assemble-append no_message p.after frames _ p.taken ∙ r.taken;
      ended = r.ended;
    }
