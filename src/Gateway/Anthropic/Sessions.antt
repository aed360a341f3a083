-- ===== src/Gateway/Anthropic/Sessions.antt =====
-- internal/gateway/anthropic.go: a whole message, from `message_start` to `message_stop`.
use mathlib.Core.List.{append_assoc}
use claw_proxy_hub_next.Base.{
  ℕ, String, append, Option, some, some_injective, List, [], ◌∷◌, ◌++◌, ◌≡◌, refl, sym, ap, ◌∙◌,
  All, arith, Option-cases, inl, inr, subst,
}
use claw_proxy_hub_next.Gateway.Envelope.{Usage, StreamEvent, message_start, message_finish}
use claw_proxy_hub_next.Gateway.Usage.{AnthUsage}
use claw_proxy_hub_next.Gateway.Aggregate.{AggregateCore, new_core, feed, feed_all}
use claw_proxy_hub_next.Gateway.Anthropic.{
  Frame, message_started, content_block_start, content_block_delta, content_block_stop,
  message_delta, message_stop, error_event, new_anth_state, finish_frames, convert_event, encode,
  map_stop_reason,
}
use claw_proxy_hub_next.Gateway.Anthropic.Client.{
  Message, no_message, receive, assemble, before_start, in_message, ended, listen, follow,
}
use claw_proxy_hub_next.Gateway.Anthropic.Discipline.{IsEnded, Ends, encode-Ends}
use claw_proxy_hub_next.Gateway.Anthropic.Frames.{
  IsBlockFrame, All-append, IsInner, inner-IsBefore, encode_blocks, finish_blocks,
}

listen-block :
    (m : Message) (f : Frame) (m' : Message)
    → IsBlockFrame f
    → receive m f ≡ some m'
    → listen (in_message m) f ≡ some (in_message m')
unfolding listen
listen-block m (message_started id model n) m' b e = absurd b
listen-block m (content_block_start i head) m' b e = rw e refl
listen-block m (content_block_delta i d) m' b e = rw e refl
listen-block m (content_block_stop i) m' b e = rw e refl
listen-block m (message_delta r u) m' b e = absurd b
listen-block m message_stop m' b e = absurd b
listen-block m (error_event t) m' b e = absurd b

-- The client follows blocks as it assembles them.
follow-blocks :
    (m m' : Message) (fs gs : List Frame)
    → All IsBlockFrame fs
    → assemble m fs ≡ some m'
    → follow (in_message m) (fs ++ gs) ≡ follow (in_message m') gs
unfolding assemble follow
follow-blocks m m' [] gs a e = let same : m ≡ m' = some_injective e in rw same refl
follow-blocks m m' (f ∷ fs) gs a e = elim (Option-cases (receive m f)) [
  | inl q ↦ absurd (ground (arith, e, q))
  | inr (x, q) ↦
      let rest : assemble x fs ≡ some m' = ground (arith, e, q) in
      rw (listen-block m f x a.0 q) (follow-blocks x m' fs gs a.1 rest)
]

-- Where the whole is assembled, the first part is.
assemble-split :
    (m a : Message) (fs gs : List Frame)
    → assemble m (fs ++ gs) ≡ some a
    → (x : Message) × (assemble m fs ≡ some x) × (assemble x gs ≡ some a)
unfolding assemble
assemble-split m a [] gs e = (m, refl, e)
assemble-split m a (f ∷ fs) gs e = elim (Option-cases (receive m f)) [
  | inl q ↦ absurd (ground (arith, e, q))
  | inr (y, q) ↦
      let rest : assemble y (fs ++ gs) ≡ some a = ground (arith, e, q) in
      let (x, first, last) = assemble-split y a fs gs rest in (x, ground (arith, q, first), last)
]

-- The client follows the frames from the first to the last, and the message has then ended.
pub record Completes (fs : List Frame) (c : AggregateCore) : Type 0 where
  pub after : Message
  pub followed : follow before_start fs ≡ some (ended after)
  pub complete : IsEnded c after

assemble_end :
    (m : Message) (reason : String) (u : AnthUsage)
    → assemble m (message_delta reason u ∷ message_stop ∷ []) ≡ some m
unfolding assemble receive
assemble_end m reason u = refl

follow_end :
    (m : Message) (reason : String) (u : AnthUsage)
    → follow (in_message m) (message_delta reason u ∷ message_stop ∷ []) ≡ some (ended m)
unfolding follow listen
follow_end m reason u = refl

follow_start :
    (id model : String) (n : ℕ) (fs : List Frame)
    → follow before_start (message_started id model n ∷ fs) ≡ follow (in_message no_message) fs
unfolding follow listen
follow_start id model n fs = refl

-- What the client assembles of blocks and the end of a message, it follows.
ends-Completes :
    (id model reason : String) (n : ℕ) (u : AnthUsage) (fs : List Frame) (c : AggregateCore)
    → All IsBlockFrame fs
    → Ends no_message (fs ++ (message_delta reason u ∷ message_stop ∷ [])) c
    → Completes
        (message_started id model n ∷ (fs ++ (message_delta reason u ∷ message_stop ∷ [])))
        c
ends-Completes id model reason n u fs c a e =
    let (x, first, last) = assemble-split no_message e.after fs _ e.taken in
    let same : x ≡ e.after = some_injective (sym (assemble_end x reason u) ∙ last) in
    record {
      after = e.after;
      followed =
          follow_start id model n _
          ∙ follow-blocks no_message x fs _ a first
          ∙ follow_end x reason u
          ∙ ap (λ m. some (ended m)) same;
      complete = e.ended;
    }

frames-Completes :
    (id model reason : String) (n : ℕ) (u : AnthUsage) (frames gs fs : List Frame)
    (c : AggregateCore)
    → All IsBlockFrame frames
    → All IsBlockFrame fs
    → gs ≡ fs ++ (message_delta reason u ∷ message_stop ∷ [])
    → Ends no_message (frames ++ gs) c
    → Completes (message_started id model n ∷ (frames ++ gs)) c
frames-Completes id model reason n u frames gs fs c a b same e =
    let whole : frames ++ gs ≡ (frames ++ fs) ++ (message_delta reason u ∷ message_stop ∷ []) =
      ap (λ l. frames ++ l) same ∙ sym (append_assoc frames fs _) in
    subst (λ l. Completes (message_started id model n ∷ l) c) (sym whole)
      (ends-Completes id model reason n u (frames ++ fs) c (All-append frames fs a b)
        (subst (λ l. Ends no_message l c) whole e))

-- Take a `MessageStart`, then any events that are neither a `MessageStart` nor a `MessageFinish`,
-- and then a `MessageFinish`. The client follows every frame that is sent: `message_start` comes
-- first and once, then come the frames of blocks, then one `message_delta`, and `message_stop` is
-- the last frame. Blocks start at 0, 1, 2 and so on, every delta falls into an open block of its
-- own kind, and every stop closes an open block; two blocks may be open at once. At the end no
-- block is open, the text and the thinking are the aggregate's, each of the aggregate's calls
-- stands in a closed tool block, with its identifier, its name and its whole arguments, and each
-- tool block is one of those calls.
pub encode-Completes :
    (hex hex12 model model' reason : String) (evs : List StreamEvent) (usage : Option Usage)
    → All IsInner evs
    → let (s, frames) = encode hex (new_anth_state hex12 model') (message_start model ∷ evs) in
      Completes
        (frames ++ (convert_event hex s (message_finish reason usage)).1)
        (feed_all hex (new_core model') (message_start model ∷ evs))
unfolding convert_event encode feed_all feed
encode-Completes hex hex12 model model' reason evs usage inner =
    let (s, frames) = encode hex (new_anth_state hex12 model) evs in
    let (fs, u, a, same) = finish_blocks reason usage s in
    frames-Completes (append "msg_" hex12) model (map_stop_reason reason) 0 u frames
      (finish_frames reason usage s).1 fs _ (encode_blocks hex _ evs inner) a same
      (encode-Ends hex hex12 model model reason evs usage (inner-IsBefore evs inner))
