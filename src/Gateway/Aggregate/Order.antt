-- ===== src/Gateway/Aggregate/Order.antt =====
-- The calls that `tools_in_order` returns are those of the map, in the order of their first delta.
use claw_proxy_hub_next.Base.{
  String, str_eq, eq_iff, ◌≡◌, refl, sym, ap, Option, ◌∙◌, true, false, none, some, List, [], ◌∷◌,
  ◌++◌, lookup, insert, insert_new, keys, values, arith, if◌then◌else◌, Bool-cases, inl, inr, All,
}
use claw_proxy_hub_next.Gateway.Envelope.{
  StreamEvent, message_start, content_delta, tool_call_delta, message_finish, task_failed, not_set,
}
use claw_proxy_hub_next.Gateway.ToolCalls.{resolve}
use claw_proxy_hub_next.Gateway.Aggregate.{
  AggrTool, AggregateCore, new_core, feed, feed_call, feed_all, gather, tools_in_order,
}

-- No key stands twice.
abbrev pub Distinct : List (String × AggrTool) → Type 0
Distinct [] = Unit
Distinct ((k, v) ∷ m) = (lookup k m ≡ none) × Distinct m

gather_skip :
    (k : String) (v : AggrTool) (n m : List (String × AggrTool))
    → lookup k n ≡ none
    → gather (keys n) ((k, v) ∷ m) ≡ gather (keys n) m
unfolding gather lookup
gather_skip k v [] m h = refl
gather_skip k v ((j, w) ∷ n) m h = ground (arith, eq_iff k j, eq_iff j k, gather_skip k v n m)

gather-keys : (m : List (String × AggrTool)) → Distinct m → gather (keys m) m ≡ values m
unfolding gather lookup
gather-keys [] d = refl
gather-keys ((k, v) ∷ m) d = ground (arith, eq_iff k k, gather_skip k v m m d.0, gather-keys m d.1)

-- A rewritten call keeps its place; a new one stands last.
keys-insert_old :
    (k : String) (v w : AggrTool) (m : List (String × AggrTool))
    → lookup k m ≡ some w
    → keys (insert k v m) ≡ keys m
unfolding lookup insert
keys-insert_old k v w [] h = ground arith
keys-insert_old k v w ((j, x) ∷ m) h = ground (arith, keys-insert_old k v w m)

lookup-append :
    (j k : String) (v : AggrTool) (m : List (String × AggrTool))
    → lookup j m ≡ none
    → lookup j (m ++ (k, v) ∷ []) ≡ (if str_eq k j then some v else none)
unfolding lookup
lookup-append j k v [] h = refl
lookup-append j k v ((i, w) ∷ m) h = ground (arith, lookup-append j k v m)

append-Distinct :
    (k : String) (v : AggrTool) (m : List (String × AggrTool))
    → lookup k m ≡ none
    → Distinct m
    → Distinct (m ++ (k, v) ∷ [])
unfolding lookup
append-Distinct k v [] h d = (refl, tt)
append-Distinct k v ((j, w) ∷ m) h d = (
  ground (arith, eq_iff k j, eq_iff j k, lookup-append j k v m),
  append-Distinct k v m (ground arith) d.1,
)

lookup-insert_ne_none :
    (j k : String) (v w : AggrTool) (m : List (String × AggrTool))
    → lookup j m ≡ none
    → lookup k m ≡ some w
    → lookup j (insert k v m) ≡ none
unfolding lookup insert
lookup-insert_ne_none j k v w [] h p = cc
lookup-insert_ne_none j k v w ((i, x) ∷ m) h p = ground (arith, lookup-insert_ne_none j k v w m)

insert_old-Distinct :
    (k : String) (v w : AggrTool) (m : List (String × AggrTool))
    → lookup k m ≡ some w
    → Distinct m
    → Distinct (insert k v m)
unfolding lookup insert
insert_old-Distinct k v w [] h d = absurd (cc)
insert_old-Distinct k v w ((j, x) ∷ m) h d = elim (Bool-cases (str_eq j k)) [
  | inl e ↦ rw e d
  | inr e ↦
      rw e (
        lookup-insert_ne_none j k v w m d.0 (rw e at h),
        insert_old-Distinct k v w m (rw e at h) d.1,
      )
]

-- A call stands under its own identifier.
abbrev pub IsIdentified : String × AggrTool → Type 0
IsIdentified (k, t) = t.id ≡ k

pub identified_of-lookup :
    (k : String) (t : AggrTool) (m : List (String × AggrTool))
    → lookup k m ≡ some t
    → All IsIdentified m
    → t.id ≡ k
unfolding lookup
identified_of-lookup k t [] h a = cc
identified_of-lookup k t ((j, w) ∷ m) h a = elim (Bool-cases (str_eq j k)) [
  | inl e ↦ cc ((eq_iff j k).0 e, rw e at h, a.0)
  | inr e ↦ identified_of-lookup k t m (rw e at h) a.1
]

insert-IsIdentified :
    (k : String) (t : AggrTool) (m : List (String × AggrTool))
    → t.id ≡ k
    → All IsIdentified m
    → All IsIdentified (insert k t m)
unfolding insert
insert-IsIdentified k t [] e a = (e, tt)
insert-IsIdentified k t ((j, w) ∷ m) e a = elim (Bool-cases (str_eq j k)) [
  | inl q ↦ rw q (e ∙ sym ((eq_iff j k).0 q), a.1)
  | inr q ↦ rw q (a.0, insert-IsIdentified k t m e a.1)
]

-- The order names the calls of the map, each once, and each stands under its identifier.
pub record IsOrdered (c : AggregateCore) : Type 0 where
  pub distinct : Distinct c.tools
  pub named : c.order ≡ keys c.tools
  pub identified : All IsIdentified c.tools

keys-append : (m n : List (String × AggrTool)) → keys (m ++ n) ≡ keys m ++ keys n
keys-append [] n = refl
keys-append (e ∷ m) n = ap (λ (r : List String). e.0 ∷ r) (keys-append m n)

feed_call-IsOrdered :
    (id name arguments : String) (found : Option AggrTool) (c : AggregateCore)
    → lookup id c.tools ≡ found
    → IsOrdered c
    → IsOrdered (feed_call id name arguments found c)
unfolding feed_call
feed_call-IsOrdered id name arguments none c h o = record {
  distinct = rw (insert_new id _ c.tools h) (append-Distinct id _ c.tools h o.distinct);
  named = rw (insert_new id _ c.tools h, keys-append, o.named);
  identified = insert-IsIdentified id _ c.tools refl o.identified;
}
feed_call-IsOrdered id name arguments (some t) c h o = record {
  distinct = insert_old-Distinct id _ t c.tools h o.distinct;
  named = o.named ∙ sym (keys-insert_old id _ t c.tools h);
  identified =
      insert-IsIdentified id _ c.tools (identified_of-lookup id t c.tools h o.identified)
        o.identified;
}

pub feed-IsOrdered :
    (hex : String) (c : AggregateCore) (ev : StreamEvent) → IsOrdered c → IsOrdered (feed hex c ev)
unfolding feed
feed-IsOrdered hex c (tool_call_delta ev) o =
    let (track, id, name) = resolve hex c.track ev in
    feed_call-IsOrdered id name ev.arguments_delta (lookup id c.tools) (record c { track = track })
      refl (record { distinct = o.distinct; named = o.named; identified = o.identified })
feed-IsOrdered hex c (message_start model) o = record {
  distinct = o.distinct;
  named = o.named;
  identified = o.identified;
}
feed-IsOrdered hex c (content_delta text true) o = record {
  distinct = o.distinct;
  named = o.named;
  identified = o.identified;
}
feed-IsOrdered hex c (content_delta text false) o = record {
  distinct = o.distinct;
  named = o.named;
  identified = o.identified;
}
feed-IsOrdered hex c (message_finish reason none) o = record {
  distinct = o.distinct;
  named = o.named;
  identified = o.identified;
}
feed-IsOrdered hex c (message_finish reason (some u)) o = record {
  distinct = o.distinct;
  named = o.named;
  identified = o.identified;
}
feed-IsOrdered hex c (task_failed e detail) o = o
feed-IsOrdered hex c not_set o = o

pub feed_all-IsOrdered :
    (hex : String) (c : AggregateCore) (evs : List StreamEvent)
    → IsOrdered c
    → IsOrdered (feed_all hex c evs)
unfolding feed_all
feed_all-IsOrdered hex c [] o = o
feed_all-IsOrdered hex c (ev ∷ evs) o =
    feed_all-IsOrdered hex (feed hex c ev) evs (feed-IsOrdered hex c ev o)

pub tools_in_order-eq-values : (c : AggregateCore) → IsOrdered c → tools_in_order c ≡ values c.tools
unfolding tools_in_order
tools_in_order-eq-values c o = rw o.named (gather-keys c.tools o.distinct)

-- After any events, from the start of a reply, `tools_in_order` returns every call of the map, each
-- once, in the order in which their first deltas came.
pub tools_in_order-feed_all :
    (hex model : String) (evs : List StreamEvent)
    → let c = feed_all hex (new_core model) evs in tools_in_order c ≡ values c.tools
tools_in_order-feed_all hex model evs =
    tools_in_order-eq-values (feed_all hex (new_core model) evs) (
      feed_all-IsOrdered hex (new_core model) evs
        (record { distinct = tt; named = refl; identified = tt }))
