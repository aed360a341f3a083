-- ===== src/Upstream/Chained/Calls.antt =====
-- What the deltas of tool calls keep in step between two hubs in a row.
use claw_proxy_hub_next.Base.{
  ℕ, ◌≤◌, ◌<◌, String, append, str_eq, eq_iff, Bool, true, false, Option, none, some, List, [], ◌∷◌,
  ◌++◌, lookup, insert, lookup-insert, if◌then◌else◌, ◌≡◌, refl, sym, ap, ◌∙◌, arith, ==_iff, ◌==◌,
  Bool-cases, inl, inr, append_nonempty, chosen,
}
use claw_proxy_hub_next.Gateway.Envelope.{ToolCallDelta, tool_call_delta}
use claw_proxy_hub_next.Gateway.ToolCalls.{ToolCallTracker, resolve}
use claw_proxy_hub_next.Gateway.Aggregate.{AggrTool, AggregateCore, feed, feed_call, feed_all}
use claw_proxy_hub_next.Gateway.OpenAi
use claw_proxy_hub_next.Gateway.OpenAi.{
  Frame, chunk, OpenAiState, new_openai_state, tool_chunk, convert_event, encode,
}
use claw_proxy_hub_next.Upstream.IntMaps.{at, at-put}
use claw_proxy_hub_next.Upstream.OpenAi.Parsing.{
  Parser, or_call, remember, texts, tool_call, feed_choice, feed_chunk, note_reason,
}
use claw_proxy_hub_next.Upstream.Chained.{choice_of, parse}

abbrev pub known {ℓ} : {A : Type ℓ} → Option A → Bool
known none = false
known (some x) = true

-- The first hub's encoder and aggregate, and the second hub's parser and aggregate.
pub record IsSynced (s : OpenAiState) (p : Parser) (c d : AggregateCore) : Type 0 where
  pub tracked : s.tools ≡ c.track
  pub text : d.text ≡ c.text
  pub reasoning : d.reasoning ≡ c.reasoning
  pub tools : d.tools ≡ c.tools
  pub order : d.order ≡ c.order
  pub agree : (k : String) → known (lookup k s.tool_idx) ≡ known (lookup k c.tools)
  pub ids :
      (k : String) (i : ℕ)
      → lookup k s.tool_idx ≡ some i
      → (at "" i p.tool_ids ≡ k) × (i < s.next_idx)
  pub fresh : (i : ℕ) → s.next_idx ≤ i → at "" i p.tool_names ≡ ""
  pub quiet :
      c.track.last_name ≡ "" → (d.track.last_name ≡ "") × ((i : ℕ) → at "" i p.tool_names ≡ "")

pub resolve_nonempty :
    (hex : String) (t : ToolCallTracker) (ev : ToolCallDelta)
    → str_eq (resolve hex t ev).1 "" ≡ false
unfolding resolve
resolve_nonempty hex t ev =
    chosen (λ i. str_eq i "" ≡ false) (str_eq ev.id "") _ _
      (λ e.
        chosen (λ i. str_eq i "" ≡ false) (str_eq t.last_id "") _ _
          (λ e'. append_nonempty "call_" hex (omega arith)) (λ e'. e'))
      (λ e. e)

-- An event with an identifier, as the aggregate takes it.
feed_named :
    (hex id name arguments : String) (d : AggregateCore)
    → str_eq id "" ≡ false
    → let name' = if str_eq name "" then d.track.last_name else name in
      feed hex d (tool_call_delta (record { id = id; name = name; arguments_delta = arguments }))
      ≡ feed_call id name' arguments
          (lookup id d.tools)
          (record d { track = record { last_id = id; last_name = name' } })
unfolding feed resolve
feed_named hex id name arguments d e = rw e refl

module _ (to_lower : String → String) where
  pub parse_call :
      (p : Parser) (i : ℕ) (cid model id name arguments : String)
      → parse to_lower p (chunk cid model (OpenAi.tool_call i (some (id, name)) arguments) "" ∷ [])
        ≡ tool_call p (record { index = i; id = id; name = name; arguments = arguments })
  unfolding parse choice_of feed_chunk feed_choice note_reason texts tool_call
  parse_call p i cid model id name arguments = refl

  pub parse_more :
      (p : Parser) (i : ℕ) (cid model arguments : String)
      → parse to_lower p (chunk cid model (OpenAi.tool_call i none arguments) "" ∷ [])
        ≡ tool_call p (record { index = i; id = ""; name = ""; arguments = arguments })
  unfolding parse choice_of feed_chunk feed_choice note_reason texts tool_call
  parse_more p i cid model arguments = refl

pub known_none : {A : Type 0} (o : Option A) → known o ≡ false → o ≡ none
known_none none h = refl
known_none (some x) h = absurd (cc)

pub known_some : {A : Type 0} (o : Option A) → known o ≡ true → (x : A) × (o ≡ some x)
known_some none h = absurd (cc)
known_some (some x) h = (x, refl)

-- The name that the second aggregate gives a new call.
heard :
    (s : OpenAiState) (p : Parser) (c d : AggregateCore)
    → IsSynced s p c d
    → let i = s.next_idx in
      let name = c.track.last_name in
      let name' = at "" i (remember i name p.tool_names) in
      (if str_eq name' "" then d.track.last_name else name') ≡ name
heard s p c d y =
    let i = s.next_idx in
    let name = c.track.last_name in
    elim (Bool-cases (str_eq name "")) [
      | inl e ↦
          let empty_name : name ≡ "" = (eq_iff name "").0 e in
          rw (e, y.fresh i (omega arith), (y.quiet empty_name).0, empty_name) refl
      | inr e ↦ rw (e, at-put "" name i i p.tool_names) (ground (arith, e))
    ]

-- What an index is known by, before and after a write.
at-remember :
    (i k : ℕ) (v : String) (m : List (ℕ × String))
    → at "" k (remember i v m)
      ≡ (if i == k then (if str_eq v "" then at "" k m else v) else at "" k m)
at-remember i k v m = elim (Bool-cases (str_eq v "")) [
  | inl e ↦ rw e (ground arith)
  | inr e ↦ rw e (at-put "" v i k m)
]

module _ (hex : String) (id arguments : String) (named : str_eq id "" ≡ false) where
  -- A new call, in the second aggregate.
  feed_new :
      (s : OpenAiState) (p : Parser) (c d : AggregateCore)
      → IsSynced s p c d
      → lookup id d.tools ≡ none
      → let i = s.next_idx in
        let name = c.track.last_name in
        let t : AggrTool = record { id = id; name = name; input = append "" arguments } in
        feed_all hex d
          (tool_call p (record { index = i; id = id; name = name; arguments = arguments })).1
        ≡ record d {
          track = record { last_id = id; last_name = name };
          tools = insert id t d.tools;
          order = d.order ++ id ∷ [];
        }
  unfolding feed_all tool_call feed_call
  feed_new s p c d y miss =
      let i = s.next_idx in
      let name = c.track.last_name in
      let same_id : or_call (at "" i (remember i id p.tool_ids)) i ≡ id =
        rw (named, at-put "" id i i p.tool_ids) (ground (arith, named)) in
      let back = feed_named hex id (at "" i (remember i name p.tool_names)) arguments d named in
      rw (same_id, back, heard s p c d y, miss) refl

  pub new_call :
      (s : OpenAiState) (p : Parser) (c d : AggregateCore)
      → IsSynced s p c d
      → lookup id s.tool_idx ≡ none
      → let name = c.track.last_name in
        let (p', evs) =
          tool_call p
            (record { index = s.next_idx; id = id; name = name; arguments = arguments }) in
        IsSynced
          (tool_chunk id name arguments none s).0
          p'
          (feed_call id name arguments none c)
          (feed_all hex d evs)
  unfolding tool_chunk tool_call feed_call
  new_call s p c d y miss =
      let i = s.next_idx in
      let name = c.track.last_name in
      let miss_c : lookup id c.tools ≡ none =
        known_none (lookup id c.tools) (sym (y.agree id) ∙ ap known miss) in
      let t : AggrTool = record { id = id; name = name; input = append "" arguments } in
      rw (feed_new s p c d y (ap (lookup id) y.tools ∙ miss_c)) record {
        tracked = y.tracked;
        text = y.text;
        reasoning = y.reasoning;
        tools = ap (insert id t) y.tools;
        order = ap (λ (o : List String). o ++ id ∷ []) y.order;
        agree = λ k.
            ground
              (arith, y.agree k, lookup-insert id k i s.tool_idx, lookup-insert id k t c.tools);
        ids = λ k j h. ground (
          arith,
          h,
          lookup-insert id k i s.tool_idx,
          eq_iff id k,
          y.ids k j,
          at-remember i j id p.tool_ids,
          named,
          ==_iff i j,
        );
        fresh = λ j h. ground (arith, at-remember i j name p.tool_names, y.fresh j, ==_iff i j);
        quiet = λ h. (
          h,
          λ j. ground (arith, at-remember i j name p.tool_names, eq_iff name "", (y.quiet h).1 j),
        );
      }

  -- More of a call that both hubs know.
  pub more_call :
      (s : OpenAiState) (p : Parser) (c d : AggregateCore) (i : ℕ) (t : AggrTool)
      → IsSynced s p c d
      → lookup id s.tool_idx ≡ some i
      → lookup id c.tools ≡ some t
      → let name = c.track.last_name in
        let (p', evs) =
          tool_call p (record { index = i; id = ""; name = ""; arguments = arguments }) in
        IsSynced
          (tool_chunk id name arguments (some i) s).0
          p'
          (feed_call id name arguments (some t) c)
          (feed_all hex d evs)
  unfolding tool_chunk tool_call feed_call feed_all
  more_call s p c d i t y hit hit_c =
      let name' = at "" i p.tool_names in
      let same_id : or_call (at "" i p.tool_ids) i ≡ id =
        rw (y.ids id i hit).0 (ground (arith, named)) in
      let hit_d : lookup id d.tools ≡ some t = ap (lookup id) y.tools ∙ hit_c in
      let back = feed_named hex id name' arguments d named in
      let t' : AggrTool = record t { input = append t.input arguments } in
      rw (same_id, back, hit_d)
        record {
          tracked = y.tracked;
          text = y.text;
          reasoning = y.reasoning;
          tools = ap (insert id t') y.tools;
          order = y.order;
          agree = λ k. ground (arith, y.agree k, hit_c, lookup-insert id k t' c.tools, eq_iff id k);
          ids = y.ids;
          fresh = y.fresh;
          quiet = λ h. (rw ((y.quiet h).1 i) (y.quiet h).0, (y.quiet h).1);
        }

-- What the tracker makes of an event, at the sending hub.
pub resync :
    (hex : String) (s : OpenAiState) (p : Parser) (c d : AggregateCore) (ev : ToolCallDelta)
    → IsSynced s p c d
    → let track = (resolve hex c.track ev).0 in
      IsSynced (record s { tools = track }) p (record c { track = track }) d
unfolding resolve
resync hex s p c d ev y = record {
  tracked = refl;
  text = y.text;
  reasoning = y.reasoning;
  tools = y.tools;
  order = y.order;
  agree = y.agree;
  ids = y.ids;
  fresh = y.fresh;
  quiet = λ h. y.quiet (ground (arith, eq_iff ev.name "", h));
}
