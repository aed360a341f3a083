-- ===== src/Gateway/Responses/Outputs.antt =====
-- The output of `response.completed` against the non-streaming aggregate of the same events.
use claw_proxy_hub_next.Base.{
  ℕ, String, append, append-nil_text, str_eq, false, subst, some_injective, map_option, ◌≡◌, refl,
  sym, ap, ◌∙◌, Option, none, some, List, [], ◌∷◌, ◌++◌, lookup, arith, All,
}
use mathlib.Core.List.{append-nil}
use claw_proxy_hub_next.Gateway.Envelope.{Usage, StreamEvent, message_finish}
use claw_proxy_hub_next.Gateway.Aggregate.{
  AggrTool, AggregateCore, new_core, feed_all, gather, tools_in_order,
}
use claw_proxy_hub_next.Gateway.Aggregate.Order.{
  IsOrdered, IsIdentified, feed_all-IsOrdered, identified_of-lookup,
}
use claw_proxy_hub_next.Gateway.Responses.{
  Item, reasoning_item, message_item, function_item, Frame, response_completed, output_item_done,
  FnItem, ResponsesState, new_responses_state, close_reasoning, close_text, close_calls,
  finish_frames, convert_event, encode,
}
use claw_proxy_hub_next.Gateway.Responses.Sync.{start, run}
use claw_proxy_hub_next.Gateway.Responses.Calls.{IsSynced, same_calls, arguments_of, input_of}
use claw_proxy_hub_next.Gateway.Responses.Names.{Names, Names-at, Names-run, no-Names}

-- What a client reads off a list of output items.
unfoldable pub text_of : List Item → String
text_of [] = ""
text_of (message_item id status t ∷ items) = append t (text_of items)
text_of (reasoning_item id summary ∷ items) = text_of items
text_of (function_item id call_id name arguments status ∷ items) = text_of items

unfoldable pub reasoning_of : List Item → String
reasoning_of [] = ""
reasoning_of (message_item id status t ∷ items) = reasoning_of items
reasoning_of (reasoning_item id none ∷ items) = reasoning_of items
reasoning_of (reasoning_item id (some t) ∷ items) = append t (reasoning_of items)
reasoning_of (function_item id call_id name arguments status ∷ items) = reasoning_of items

unfoldable pub calls_of : List Item → List (String × String × String)
calls_of [] = []
calls_of (message_item id status t ∷ items) = calls_of items
calls_of (reasoning_item id summary ∷ items) = calls_of items
calls_of (function_item id call_id name arguments status ∷ items) =
    (call_id, name, arguments) ∷ calls_of items

-- The items that `response.output_item.done` closed.
unfoldable pub done_items : List Frame → List Item
done_items [] = []
done_items (output_item_done i item ∷ fs) = item ∷ done_items fs
done_items (f ∷ fs) = done_items fs

-- The output of the first `response.completed`.
unfoldable pub completed_output : List Frame → Option (List Item)
completed_output [] = none
completed_output (response_completed id model output usage ∷ fs) = some output
completed_output (f ∷ fs) = completed_output fs

-- The frames of a closing are the `done` frames of its items, and complete nothing.
record Closes (p : List Frame × List Item) : Type 0 where
  done : (g : List Frame) → done_items (p.0 ++ g) ≡ p.1 ++ done_items g
  passed : (g : List Frame) → completed_output (p.0 ++ g) ≡ completed_output g

close_reasoning-Closes : (s : ResponsesState) (n : Option ℕ) → Closes (close_reasoning s n)
unfolding close_reasoning done_items completed_output
close_reasoning-Closes s none = record { done = λ g. refl; passed = λ g. refl }
close_reasoning-Closes s (some n) = record { done = λ g. refl; passed = λ g. refl }

close_text-Closes : (s : ResponsesState) (n : Option ℕ) → Closes (close_text s n)
unfolding close_text done_items completed_output
close_text-Closes s none = record { done = λ g. refl; passed = λ g. refl }
close_text-Closes s (some n) = record { done = λ g. refl; passed = λ g. refl }

close_calls-done :
    (ids : List String) (items : List (String × FnItem)) (g : List Frame)
    → done_items ((close_calls ids items).0 ++ g) ≡ (close_calls ids items).1 ++ done_items g
unfolding close_calls done_items
close_calls-done [] items g = refl
close_calls-done (id ∷ ids) items g = ground (arith, close_calls-done ids items g)

close_calls-passed :
    (ids : List String) (items : List (String × FnItem)) (g : List Frame)
    → completed_output ((close_calls ids items).0 ++ g) ≡ completed_output g
unfolding close_calls completed_output
close_calls-passed [] items g = refl
close_calls-passed (id ∷ ids) items g = ground (arith, close_calls-passed ids items g)

-- The calls of a stream against those of the aggregate, one by one: the same identifier, the same
-- arguments, and the name of the aggregate, if that has one.
pub SameCalls : List (String × String × String) → List AggrTool → Type 0
SameCalls [] [] = Unit
SameCalls [] (t ∷ ts) = ⊥
SameCalls (x ∷ xs) [] = ⊥
SameCalls ((id, name, arguments) ∷ xs) (t ∷ ts) =
    (id ≡ t.id)
    × (arguments ≡ t.input)
    × (str_eq t.name "" ≡ false → name ≡ t.name)
    × SameCalls xs ts

calls_of-close_calls :
    (ids : List String) (items : List (String × FnItem)) (tools : List (String × AggrTool))
    → ((id : String)
        → map_option arguments_of (lookup id items) ≡ map_option input_of (lookup id tools))
    → Names items tools
    → All IsIdentified tools
    → SameCalls (calls_of (close_calls ids items).1) (gather ids tools)
unfolding close_calls calls_of gather SameCalls
calls_of-close_calls [] items tools same names a = tt
calls_of-close_calls (id ∷ ids) items tools same names a =
    let rest = calls_of-close_calls ids items tools same names a in
    pick (lookup id items) (lookup id tools) refl refl rest
  where
    known_as :
        {o : Option FnItem} {u : Option AggrTool}
        → lookup id items ≡ o
        → lookup id tools ≡ u
        → map_option arguments_of (lookup id items) ≡ map_option input_of (lookup id tools)
        → map_option arguments_of o ≡ map_option input_of u
    known_as p q e = sym (ap (map_option arguments_of) p) ∙ e ∙ ap (map_option input_of) q

    pick :
        (it : Option FnItem) (t : Option AggrTool)
        → lookup id items ≡ it
        → lookup id tools ≡ t
        → SameCalls (calls_of (close_calls ids items).1) (gather ids tools)
        → SameCalls (calls_of (close_calls (id ∷ ids) items).1) (gather (id ∷ ids) tools)
    pick none none p q rest =
        let left : calls_of (close_calls (id ∷ ids) items).1 ≡ calls_of (close_calls ids items).1 =
          ground (arith, p) in
        let right : gather (id ∷ ids) tools ≡ gather ids tools = ground (arith, q) in
        rw (left, right) rest
    pick none (some t) p q rest =
        absurd (let e : none ≡ some t.input = known_as p q (same id) in cc)
    pick (some it) none p q rest =
        absurd (let e : some it.args ≡ none = known_as p q (same id) in cc)
    pick (some it) (some t) p q rest =
        let e : some it.args ≡ some t.input = known_as p q (same id) in
        let left : calls_of (close_calls (id ∷ ids) items).1
            ≡ (id, it.name, it.args) ∷ calls_of (close_calls ids items).1 =
          ground (arith, p) in
        let right : gather (id ∷ ids) tools ≡ t ∷ gather ids tools = ground (arith, q) in
        rw (left, right)
          (
            sym (identified_of-lookup id t tools q a),
            some_injective e,
            Names-at items tools id it t names p q,
            rest,
          )

no_text-close_calls :
    (ids : List String) (items : List (String × FnItem))
    → (text_of (close_calls ids items).1 ≡ "") × (reasoning_of (close_calls ids items).1 ≡ "")
unfolding close_calls text_of reasoning_of
no_text-close_calls [] items = (refl, refl)
no_text-close_calls (id ∷ ids) items = ground (arith, no_text-close_calls ids items)

module _ (s : ResponsesState) (r n : Option ℕ) (rest : List Item) where
  abbrev out : List Item
  out = (close_reasoning s r).1 ++ ((close_text s n).1 ++ rest)

  text_of-out : text_of rest ≡ "" → (n ≡ none → s.text ≡ "") → text_of out ≡ s.text
  unfolding close_reasoning close_text text_of
  text_of-out e h = ground (arith, append-nil_text s.text)

  reasoning_of-out :
      reasoning_of rest ≡ "" → (r ≡ none → s.reasoning ≡ "") → reasoning_of out ≡ s.reasoning
  unfolding close_reasoning close_text reasoning_of
  reasoning_of-out e h = ground (arith, append-nil_text s.reasoning)

  calls_of-out : calls_of out ≡ calls_of rest
  unfolding close_reasoning close_text calls_of
  calls_of-out = ground arith

-- What the client of a finished stream is owed: `response.completed` carries exactly the items that
-- were closed one by one before it, and these hold the text, the thinking and the calls given.
pub record Delivers (text reasoning : String) (calls : List AggrTool) (fs : List Frame)
    : Type 0 where
  pub output : List Item
  pub completed : completed_output fs ≡ some output
  pub closed : done_items fs ≡ output
  pub has_text : text_of output ≡ text
  pub has_reasoning : reasoning_of output ≡ reasoning
  pub has_calls : SameCalls (calls_of output) calls

synced-Delivers :
    (s : ResponsesState) (c : AggregateCore) (usage : Option Usage)
    → IsSynced s c
    → IsOrdered c
    → Names s.fn_items c.tools
    → Delivers c.text c.reasoning (tools_in_order c) (finish_frames s usage)
unfolding finish_frames tools_in_order
synced-Delivers s c usage y o names =
    let a = close_reasoning-Closes s s.reason_item in
    let b = close_text-Closes s s.text_item in
    let o₃ : List Item = (close_calls s.fn_order s.fn_items).1 in
    let quiet = no_text-close_calls s.fn_order s.fn_items in
    record {
      output = out s s.reason_item s.text_item o₃;
      completed =
          a.passed _
          ∙ b.passed _
          ∙ close_calls-passed s.fn_order s.fn_items _
          ∙ unfold completed_output in refl;
      closed =
          a.done _
          ∙ ap (λ (x : List Item). (close_reasoning s s.reason_item).1 ++ x)
              (b.done _
                ∙ ap (λ (x : List Item). (close_text s s.text_item).1 ++ x)
                    (close_calls-done s.fn_order s.fn_items _
                      ∙ unfold done_items in append-nil o₃));
      has_text = text_of-out s s.reason_item s.text_item o₃ quiet.0 y.no_text ∙ y.text;
      has_reasoning =
          reasoning_of-out s s.reason_item s.text_item o₃ quiet.1 y.no_reasoning ∙ y.reasoning;
      has_calls =
          subst (λ xs. SameCalls xs (gather c.order c.tools))
            (sym (calls_of-out s s.reason_item s.text_item o₃))
            (subst
              (λ ids. SameCalls (calls_of (close_calls ids s.fn_items).1) (gather c.order c.tools))
              (sym y.ordered)
              (calls_of-close_calls c.order s.fn_items c.tools (λ id. same_calls id s c y) names
                o.identified));
    }

-- For every list of events, what `MessageFinish` then sends a Responses client is a
-- `response.completed` whose output is exactly the list of items closed by `output_item.done`
-- before it, and which holds the text and the thinking of the aggregate of the same events, and its
-- calls, in order, with their identifiers and whole arguments. A call has the name of the aggregate's;
-- where that has none, because the first delta of the call had none, the stream may have a later one.
pub finish-Delivers :
    (hex hex16 model model' reason : String) (evs : List StreamEvent) (usage : Option Usage)
    → let s = (encode hex (new_responses_state hex16 model) evs).0 in
      let c = feed_all hex (new_core model') evs in
      Delivers c.text c.reasoning
        (tools_in_order c)
        (convert_event hex s (message_finish reason usage)).1
unfolding convert_event
finish-Delivers hex hex16 model model' reason evs usage =
    let s₀ = new_responses_state hex16 model in
    let c₀ = new_core model' in
    synced-Delivers (encode hex s₀ evs).0 (feed_all hex c₀ evs) usage
      (run hex s₀ c₀ evs (start hex16 model model'))
      (feed_all-IsOrdered hex c₀ evs (record { distinct = tt; named = refl; identified = tt }))
      (Names-run hex s₀ c₀ evs (start hex16 model model') no-Names)
