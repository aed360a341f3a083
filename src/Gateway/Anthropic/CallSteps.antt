-- ===== src/Gateway/Anthropic/CallSteps.antt =====
-- A tool call's delta: the client takes its frames, and stays in step.
use native.Mathlib.Numerals.{add-one}
use claw_proxy_hub_next.Base.{
  ℕ, ◌+◌, String, append, append-nil_text, str_eq, eq_iff, eq_refl, ◌≡◌, refl, sym, ◌∙◌, subst,
  true, Option, none, some, List, [], ◌∷◌, ◌++◌, lookup, insert, insert_twice, insert_same,
  lookup-insert, arith, Bool-cases, inl, inr,
}
use claw_proxy_hub_next.Gateway.Aggregate.{AggrTool, AggregateCore, feed_call}
use claw_proxy_hub_next.Gateway.Anthropic.{AnthState, open_tool, tool_delta}
use claw_proxy_hub_next.Gateway.Anthropic.Client.{tool, Message, put, update, receive, assemble}
use claw_proxy_hub_next.Gateway.Anthropic.Blocks.{Agree}
use claw_proxy_hub_next.Gateway.Anthropic.ToolBlocks.{open_tool-Agree, extend_tool-Agree}
use claw_proxy_hub_next.Gateway.Anthropic.Steps.{IsSynced, Follows, Follows-append}

-- The same calls, written otherwise.
retooled :
    (s : AnthState) (c : AggregateCore) (m : Message) (tools : List (String × AggrTool))
    → tools ≡ c.tools
    → IsSynced s c m
    → IsSynced s (record c { tools = tools }) m
retooled s c m tools e y = record {
  tracked = y.tracked;
  next = y.next;
  body = y.body;
  thoughts = y.thoughts;
  agree =
      subst (λ x. Agree s.think_block s.text_block s.next_block s.tool_blocks x m.blocks) (sym e)
        y.agree;
}

-- More arguments for the open call `id` at block `i`.
delta_step :
    (id arguments : String) (i : ℕ) (s : AnthState) (c : AggregateCore) (m : Message) (t : AggrTool)
    → lookup id s.tool_blocks ≡ some i
    → lookup id c.tools ≡ some t
    → IsSynced s c m
    → Follows
        (s, tool_delta arguments i)
        (record c { tools = insert id (record t { input = append t.input arguments }) c.tools })
        m
unfolding tool_delta assemble receive
delta_step id arguments i s c m t hit found y =
    let k = y.agree.known id i hit in
    let shown : m.blocks i ≡ tool true t = ground (arith, k.shown, k.found) in
    let named : t.id ≡ id = ground (arith, k.named, k.found) in
    let t' : AggrTool = record t { input = append t.input arguments } in
    elim (Bool-cases (str_eq arguments "")) [
      | inl e ↦ record {
        after = m;
        taken = rw e;
        synced =
            retooled s c m _
              (rw ((eq_iff arguments "").0 e, append-nil_text t.input)
                (insert_same id t c.tools found))
              y;
      }
      | inr e ↦ record {
        after = put m i (tool true t');
        taken = rw e (ground (arith, shown));
        synced = record {
          tracked = y.tracked;
          next = y.next;
          body = y.body;
          thoughts = y.thoughts;
          agree =
              extend_tool-Agree s.think_block s.text_block s.next_block s.tool_blocks c.tools
                m.blocks y.agree id t' named i hit;
        };
      }
    ]

-- A call that is new on both sides, with no arguments yet.
open_step :
    (id name : String) (s : AnthState) (c : AggregateCore) (m : Message)
    → lookup id s.tool_blocks ≡ none
    → IsSynced s c m
    → let (s', i, fs) = open_tool id name none s in
      let t : AggrTool = record { id = id; name = name; input = "" } in
      Follows (s', fs) (record c { tools = insert id t c.tools; order = c.order ++ id ∷ [] }) m
unfolding open_tool assemble receive
open_step id name s c m miss y =
    let t : AggrTool = record { id = id; name = name; input = "" } in
    record {
      after = record m { next = m.next + 1; blocks = update m.blocks s.next_block (tool true t) };
      taken = ground (arith, y.next);
      synced = record {
        tracked = y.tracked;
        next = omega (arith, y.next);
        body = y.body;
        thoughts = y.thoughts;
        agree = rw add-one (
            open_tool-Agree s.think_block s.text_block s.next_block s.tool_blocks c.tools m.blocks
              y.agree id t refl miss);
      };
    }

pub call_step :
    (id name arguments : String) (n : Option ℕ) (s : AnthState) (c : AggregateCore) (m : Message)
    → lookup id s.tool_blocks ≡ n
    → IsSynced s c m
    → let (s', i, fs) = open_tool id name n s in
      Follows
        (s', fs ++ tool_delta arguments i)
        (feed_call id name arguments (lookup id c.tools) c)
        m
unfolding open_tool feed_call
call_step id name arguments none s c m p y =
    let t : AggrTool = record { id = id; name = name; input = "" } in
    let s' : AnthState = (open_tool id name none s).0 in
    let t' : AggrTool = record t { input = append "" arguments } in
    rw (y.agree.unknown id p) (
      Follows-append s' (open_tool id name none s).2 (tool_delta arguments s.next_block) s'
        (record c { tools = insert id t c.tools; order = c.order ++ id ∷ [] })
        (feed_call id name arguments none c) m (open_step id name s c m p y)
        (λ m' y'.
          subst
            (λ (x : List (String × AggrTool)).
              Follows (s', tool_delta arguments s.next_block)
                (record c { tools = x; order = c.order ++ id ∷ [] }) m')
            (insert_twice id t t' c.tools)
            (delta_step id arguments s.next_block s'
              (record c { tools = insert id t c.tools; order = c.order ++ id ∷ [] }) m' t
              (lookup-insert id id s.next_block s.tool_blocks ∙ rw (eq_refl id))
              (lookup-insert id id t c.tools ∙ rw (eq_refl id)) y')))
call_step id name arguments (some i) s c m p y =
    let k = y.agree.known id i p in rw k.found (delta_step id arguments i s c m k.call p k.found y)
