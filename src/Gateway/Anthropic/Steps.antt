-- ===== src/Gateway/Anthropic/Steps.antt =====
-- A delta of thinking or text: the client takes its frames, and stays in step with the encoder and
-- the aggregate.
use native.Mathlib.Numerals.{add-one}
use claw_proxy_hub_next.Base.{
  ℕ, ◌+◌, String, append, ◌≡◌, refl, ap, ◌∙◌, true, false, Option, none, some, List, [], ◌∷◌, ◌++◌,
  arith, inl, inr, Option-cases,
}
use claw_proxy_hub_next.Gateway.Aggregate.{AggregateCore}
use claw_proxy_hub_next.Gateway.Anthropic.{
  AnthState, Frame, thinking_frames, stop_thinking, text_frames,
}
use claw_proxy_hub_next.Gateway.Anthropic.Client.{
  thinking, text, Message, put, update, receive, assemble,
}
use claw_proxy_hub_next.Gateway.Anthropic.Blocks.{
  Agree, open_thinking-Agree, open_text-Agree, stop_thinking-Agree,
}

pub record IsSynced (s : AnthState) (c : AggregateCore) (m : Message) : Type 0 where
  pub tracked : s.tools ≡ c.track
  pub next : m.next ≡ s.next_block
  pub body : m.body ≡ c.text
  pub thoughts : m.thoughts ≡ c.reasoning
  pub agree : Agree s.think_block s.text_block s.next_block s.tool_blocks c.tools m.blocks

-- The client at `m` takes the frames of `p`, and is then in step.
pub record Follows (p : AnthState × List Frame) (c : AggregateCore) (m : Message) : Type 0 where
  pub after : Message
  pub taken : assemble m p.1 ≡ some after
  pub synced : IsSynced p.0 c after

pub assemble-append :
    (m m' : Message) (fs gs : List Frame)
    → assemble m fs ≡ some m'
    → assemble m (fs ++ gs) ≡ assemble m' gs
unfolding assemble
assemble-append m m' [] gs h = ground arith
assemble-append m m' (f ∷ fs) gs h = elim (Option-cases (receive m f)) [
  | inl e ↦ ground arith
  | inr (q, e) ↦ ground (arith, assemble-append q m' fs gs)
]

-- Frames in two parts.
pub Follows-append :
    (s : AnthState) (fs gs : List Frame) (t : AnthState) (b c : AggregateCore) (m : Message)
    → Follows (s, fs) b m
    → ((m' : Message) → IsSynced s b m' → Follows (t, gs) c m')
    → Follows (t, fs ++ gs) c m
Follows-append s fs gs t b c m p q =
    let r = q p.after p.synced in
    record {
      after = r.after;
      taken = assemble-append m p.after fs gs p.taken ∙ r.taken;
      synced = r.synced;
    }

pub thinking_step :
    (t : String) (n : Option ℕ) (s : AnthState) (c : AggregateCore) (m : Message)
    → s.think_block ≡ n
    → IsSynced s c m
    → Follows (thinking_frames t n s) (record c { reasoning = append c.reasoning t }) m
unfolding thinking_frames assemble receive
thinking_step t none s c m p y = record {
  after = record m {
    next = m.next + 1;
    blocks = update m.blocks s.next_block (thinking true);
    thoughts = append m.thoughts t;
  };
  taken = ground (arith, y.next);
  synced = record {
    tracked = y.tracked;
    next = omega (arith, y.next);
    body = y.body;
    thoughts = ap (λ (x : String). append x t) y.thoughts;
    agree = rw add-one (
        open_thinking-Agree none s.text_block s.next_block s.tool_blocks c.tools m.blocks
          (rw p at y.agree));
  };
}
thinking_step t (some i) s c m p y = record {
  after = record m { thoughts = append m.thoughts t };
  taken = ground (arith, y.agree.thinks i p);
  synced = record {
    tracked = y.tracked;
    next = y.next;
    body = y.body;
    thoughts = ap (λ (x : String). append x t) y.thoughts;
    agree = y.agree;
  };
}

pub stop_thinking_step :
    (n : Option ℕ) (s : AnthState) (c : AggregateCore) (m : Message)
    → s.think_block ≡ n
    → IsSynced s c m
    → Follows (stop_thinking n s) c m
unfolding stop_thinking assemble receive
stop_thinking_step none s c m p y = record { after = m; taken = refl; synced = y }
stop_thinking_step (some i) s c m p y = record {
  after = put m i (thinking false);
  taken = ground (arith, y.agree.thinks i p);
  synced = record {
    tracked = y.tracked;
    next = y.next;
    body = y.body;
    thoughts = y.thoughts;
    agree =
        stop_thinking-Agree none s.text_block s.next_block s.tool_blocks c.tools m.blocks i
          (rw p at y.agree);
  };
}

pub text_step :
    (t : String) (n : Option ℕ) (s : AnthState) (c : AggregateCore) (m : Message)
    → s.text_block ≡ n
    → IsSynced s c m
    → Follows (text_frames t n s) (record c { text = append c.text t }) m
unfolding text_frames assemble receive
text_step t none s c m p y = record {
  after = record m {
    next = m.next + 1;
    blocks = update m.blocks s.next_block (text true);
    body = append m.body t;
  };
  taken = ground (arith, y.next);
  synced = record {
    tracked = y.tracked;
    next = omega (arith, y.next);
    body = ap (λ (x : String). append x t) y.body;
    thoughts = y.thoughts;
    agree = rw add-one (
        open_text-Agree s.think_block none s.next_block s.tool_blocks c.tools m.blocks
          (rw p at y.agree));
  };
}
text_step t (some i) s c m p y = record {
  after = record m { body = append m.body t };
  taken = ground (arith, y.agree.writes i p);
  synced = record {
    tracked = y.tracked;
    next = y.next;
    body = ap (λ (x : String). append x t) y.body;
    thoughts = y.thoughts;
    agree = y.agree;
  };
}
