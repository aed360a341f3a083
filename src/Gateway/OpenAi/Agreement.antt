-- ===== src/Gateway/OpenAi/Agreement.antt =====
-- The reply that a client assembles from a stream against the reply without streaming.
use mathlib.Core.List.{Permᴰ}
use mathlib.Core.List.Permᴰ
use claw_proxy_hub_next.Base.{
  String, str_eq, eq_iff, true, false, Option, none, some, List, [], ◌∷◌, lookup, keys, values,
  length, ltb, ◌≡◌, ◌≢◌, refl, sym, ap, subst, ◌∙◌, if◌then◌else◌, arith, Bool-cases, Option-cases,
  inl, inr,
}
use claw_proxy_hub_next.Gateway.Envelope.{StreamEvent}
use claw_proxy_hub_next.Gateway.Aggregate.{
  AggrTool, AggregateCore, new_core, feed_all, gather, has_tools, tools_in_order,
}
use claw_proxy_hub_next.Gateway.Aggregate.Order.{
  IsOrdered, feed_all-IsOrdered, tools_in_order-eq-values,
}
use claw_proxy_hub_next.Gateway.Reply.{Reply, no_reply, reply_of}
use claw_proxy_hub_next.Gateway.OpenAi.{new_openai_state, encode}
use claw_proxy_hub_next.Gateway.OpenAi.Client.{assemble}
use claw_proxy_hub_next.Gateway.OpenAi.Roundtrip.{assemble-encode}
use claw_proxy_hub_next.Gateway.OpenAi.Result.{
  text_le, insert_text, sort_texts, sorted_keys, OpenAiMessage, message_of, result,
}

insert_text-Permᴰ : (s : String) (ts : List String) → Permᴰ (insert_text s ts) (s ∷ ts)
unfolding insert_text
insert_text-Permᴰ s [] = Permᴰ.refl (s ∷ [])
insert_text-Permᴰ s (t ∷ ts) = elim (Bool-cases (text_le s t)) [
  | inl e ↦ rw e (Permᴰ.refl (s ∷ t ∷ ts))
  | inr e ↦ rw e (Permᴰ.trans (Permᴰ.cons refl (insert_text-Permᴰ s ts)) (Permᴰ.swap refl refl))
]

sort_texts-Permᴰ : (ss : List String) → Permᴰ (sort_texts ss) ss
unfolding sort_texts
sort_texts-Permᴰ [] = Permᴰ.nil
sort_texts-Permᴰ (s ∷ ss) =
    Permᴰ.trans (insert_text-Permᴰ s (sort_texts ss)) (Permᴰ.cons refl (sort_texts-Permᴰ ss))

-- The calls of some identifiers, from the back.
abbrev skip : Option AggrTool → List AggrTool → List AggrTool
skip none ts = ts
skip (some t) ts = t ∷ ts

gather-skip :
    (m : List (String × AggrTool)) (id : String) (ids : List String)
    → gather (id ∷ ids) m ≡ skip (lookup id m) (gather ids m)
unfolding gather
gather-skip m id ids = elim (Option-cases (lookup id m)) [
  | inl e ↦ ground (arith, e)
  | inr (t, e) ↦ ground (arith, e)
]

skip-Permᴰ :
    (o : Option AggrTool) (xs ys : List AggrTool) → Permᴰ xs ys → Permᴰ (skip o xs) (skip o ys)
skip-Permᴰ none xs ys p = p
skip-Permᴰ (some t) xs ys p = Permᴰ.cons refl p

skip-swap :
    (o u : Option AggrTool) (xs : List AggrTool) → Permᴰ (skip o (skip u xs)) (skip u (skip o xs))
skip-swap none u xs = Permᴰ.refl (skip u xs)
skip-swap (some t) none xs = Permᴰ.refl (t ∷ xs)
skip-swap (some t) (some v) xs = Permᴰ.swap refl refl

gather-Permᴰ :
    (m : List (String × AggrTool)) {xs ys : List String}
    → Permᴰ xs ys
    → Permᴰ (gather xs m) (gather ys m)
gather-Permᴰ m Permᴰ.nil = Permᴰ.refl (gather [] m)
gather-Permᴰ m (Permᴰ.cons {a = a} {b = b} {l₁ = xs} {l₂ = ys} e p) =
    subst (λ k. Permᴰ (gather (a ∷ xs) m) (gather (k ∷ ys) m)) e
      (rw (gather-skip m a xs, gather-skip m a ys)
        (skip-Permᴰ (lookup a m) (gather xs m) (gather ys m) (gather-Permᴰ m p)))
gather-Permᴰ m (Permᴰ.swap {a = a} {b = b} {a' = c} {b' = d} {l = xs} e f) =
    subst (λ k. Permᴰ (gather (a ∷ b ∷ xs) m) (gather (c ∷ k ∷ xs) m)) e
      (subst (λ k. Permᴰ (gather (a ∷ b ∷ xs) m) (gather (k ∷ a ∷ xs) m)) f
        (rw
          (
            gather-skip m a (b ∷ xs),
            gather-skip m b xs,
            gather-skip m b (a ∷ xs),
            gather-skip m a xs,
          )
          (skip-swap (lookup a m) (lookup b m) (gather xs m))))
gather-Permᴰ m (Permᴰ.trans p q) = Permᴰ.trans (gather-Permᴰ m p) (gather-Permᴰ m q)

-- What a client that reads the JSON reply gets, against the reply assembled from the stream: the same
-- calls up to their order, no content beside calls, and otherwise the text, or the thinking where
-- there is no text.
pub record Agrees (r : Reply) (m : OpenAiMessage) : Type 0 where
  pub calls : Permᴰ m.tool_calls r.calls
  pub silent : r.calls ≢ [] → m.content ≡ none
  pub spoken : r.calls ≡ [] → m.content ≡ some (if str_eq r.text "" then r.reasoning else r.text)
  pub thinking : m.reasoning_content ≡ (if str_eq r.reasoning "" then none else some r.reasoning)

module _ (c : AggregateCore) (o : IsOrdered c) where
  same_calls : Permᴰ (gather (sorted_keys c.tools) c.tools) (tools_in_order c)
  unfolding tools_in_order sorted_keys
  same_calls = rw o.named (gather-Permᴰ c.tools (sort_texts-Permᴰ (keys c.tools)))

  no_calls_left : has_tools c ≡ false → tools_in_order c ≡ []
  unfolding has_tools
  no_calls_left h = tools_in_order-eq-values c o ∙ none_of c.tools h
    where
      none_of : (m : List (String × AggrTool)) → ltb 0 (length m) ≡ false → values m ≡ []
      none_of [] h = refl
      none_of (e ∷ m) h = absurd (ground (arith, h))

  some_calls : has_tools c ≡ true → tools_in_order c ≢ []
  unfolding has_tools
  some_calls h e = one_of c.tools h (sym (tools_in_order-eq-values c o) ∙ e)
    where
      one_of : (m : List (String × AggrTool)) → ltb 0 (length m) ≡ true → values m ≢ []
      one_of [] h e = absurd (ground (arith, h))
      one_of (d ∷ m) h e = absurd (cc)

  content_lem :
      (if (if str_eq c.reasoning "" then false else true)
        then (if str_eq c.text "" then c.reasoning else c.text)
        else c.text)
      ≡ (if str_eq c.text "" then c.reasoning else c.text)
  content_lem = elim (Bool-cases (str_eq c.reasoning "")) [
    | inr e ↦ rw e refl
    | inl e ↦ elim (Bool-cases (str_eq c.text "")) [
      | inr f ↦ rw (e, f) refl
      | inl f ↦ rw (e, f) ((eq_iff c.text "").0 f ∙ sym ((eq_iff c.reasoning "").0 e))
    ]
  ]

  message_of-Agrees : Agrees (reply_of c) (message_of c)
  unfolding message_of reply_of
  message_of-Agrees = elim (Bool-cases (has_tools c)) [
    | inl e ↦ record {
      calls = rw e same_calls;
      silent = λ h. rw e refl;
      spoken = λ h. absurd (some_calls e h);
      thinking = elim (Bool-cases (str_eq c.reasoning "")) [
        | inl q ↦ rw q refl
        | inr q ↦ rw q refl
      ];
    }
    | inr e ↦ record {
      calls = rw (e, no_calls_left e) Permᴰ.nil;
      silent = λ h. absurd (h (no_calls_left e));
      spoken = λ h. rw e (ap (λ t. some t) content_lem);
      thinking = elim (Bool-cases (str_eq c.reasoning "")) [
        | inl q ↦ rw q refl
        | inr q ↦ rw q refl
      ];
    }
  ]

-- The reply is there, and agrees with the message.
pub Reads : Option Reply → OpenAiMessage → Type 0
Reads none m = ⊥
Reads (some r) m = Agrees r m

-- For every list of events, the client that assembles the streamed frames meets no frame that it
-- must refuse, and its reply agrees with the message that a client gets of the same events without
-- streaming: the same calls with their names and whole arguments, up to their order; the text as the
-- content, or the thinking where there is no text, and no content where there are calls; and the
-- thinking.
pub encode-Reads :
    (hex hex12 model : String) (evs : List StreamEvent)
    → Reads
        (assemble no_reply (encode hex (new_openai_state hex12) evs).1)
        (result (feed_all hex (new_core model) evs)).message
unfolding result Reads
encode-Reads hex hex12 model evs =
    let c = feed_all hex (new_core model) evs in
    rw (assemble-encode hex hex12 model evs) (
      message_of-Agrees c (
        feed_all-IsOrdered hex (new_core model) evs
          (record { distinct = tt; named = refl; identified = tt })))
