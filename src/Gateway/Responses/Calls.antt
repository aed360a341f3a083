-- ===== src/Gateway/Responses/Calls.antt =====
-- A tool call's delta keeps the encoder's state and the aggregate together.
use claw_proxy_hub_next.Base.{
  String, append, append-nil_text, str_eq, eq_iff, ◌≡◌, refl, sym, ap, ◌∙◌, Bool, true, Option,
  none, some, List, [], ◌∷◌, ◌++◌, lookup, insert, insert_same, insert_twice, lookup-insert,
  eq_refl, not, ◌&&◌, map_values, map_option, lookup-map_values, map_values-insert, arith,
  Bool-cases, inl, inr,
}
use claw_proxy_hub_next.Gateway.Aggregate.{AggrTool, AggregateCore, feed_call}
use claw_proxy_hub_next.Gateway.Responses.{FnItem, ResponsesState, add_fn, call_frames}

abbrev pub arguments_of : FnItem → String
arguments_of it = it.args

abbrev pub input_of : AggrTool → String
input_of t = t.input

-- The encoder and the aggregate have seen the same text, thinking and calls.
pub record IsSynced (s : ResponsesState) (c : AggregateCore) : Type 0 where
  pub tracked : s.tools ≡ c.track
  pub text : s.text ≡ c.text
  pub reasoning : s.reasoning ≡ c.reasoning
  pub ordered : s.fn_order ≡ c.order
  pub calls : map_values arguments_of s.fn_items ≡ map_values input_of c.tools
  pub no_text : s.text_item ≡ none → s.text ≡ ""
  pub no_reasoning : s.reason_item ≡ none → s.reasoning ≡ ""

map_values-insert_args :
    (id : String) (it : FnItem) (m : List (String × FnItem)) (n : List (String × String))
    → map_values arguments_of m ≡ n
    → map_values arguments_of (insert id it m) ≡ insert id it.args n
map_values-insert_args id it m n e =
    map_values-insert arguments_of id it m
    ∙ ap (λ (r : List (String × String)). insert id it.args r) e

-- What a tool call's delta leaves alone.
record Kept (s t : ResponsesState) : Type 0 where
  tools : t.tools ≡ s.tools
  text : t.text ≡ s.text
  reasoning : t.reasoning ≡ s.reasoning
  text_item : t.text_item ≡ s.text_item
  reason_item : t.reason_item ≡ s.reason_item

-- The delta's arguments reach the stored item, also where they are empty and nothing is written.
module _ (id arguments : String) (s : ResponsesState) (it : FnItem) (b : Bool) where
  call_frames-Kept : Kept s (call_frames id arguments (s, it, b)).0
  unfolding call_frames
  call_frames-Kept = ground arith

  fn_order-call_frames : (call_frames id arguments (s, it, b)).0.fn_order ≡ s.fn_order
  unfolding call_frames
  fn_order-call_frames = ground arith

  args-call_frames :
      (n : List (String × String))
      → lookup id s.fn_items ≡ some it
      → map_values arguments_of s.fn_items ≡ n
      → map_values arguments_of (call_frames id arguments (s, it, b)).0.fn_items
        ≡ insert id (append it.args arguments) n
  unfolding call_frames
  args-call_frames n h e = elim (Bool-cases (str_eq arguments "")) [
    | inl q ↦ rw q (
        rw ((eq_iff arguments "").0 q, append-nil_text it.args)
          (e
            ∙ sym (
                insert_same id it.args n
                  (rw (← e, lookup-map_values arguments_of id s.fn_items, h)))))
    | inr q ↦
        rw q
          (map_values-insert_args id (record it { args = append it.args arguments }) s.fn_items n e)
  ]

-- A known call: its item is found, with its name filled in where it had none.
module _ (id name : String) (s : ResponsesState) (it : FnItem)
    (found : lookup id s.fn_items ≡ some it) where
  pub known_stored :
      let (s', it', b) = add_fn id name (some it) s in lookup id s'.fn_items ≡ some it'
  unfolding add_fn
  known_stored =
      ground (arith, lookup-insert id id (record it { name = name }) s.fn_items, eq_refl id)

  known_args :
      let (s', it', b) = add_fn id name (some it) s in
      (it'.args ≡ it.args)
      × (map_values arguments_of s'.fn_items ≡ map_values arguments_of s.fn_items)
  unfolding add_fn
  known_args = elim (Bool-cases (str_eq it.name "" && not (str_eq name ""))) [
    | inl q ↦ rw q (
      refl,
      map_values-insert_args id (record it { name = name }) s.fn_items _ refl
          ∙ insert_same id it.args _ (rw (lookup-map_values arguments_of id s.fn_items, found)),
    )
    | inr q ↦ rw q (refl, refl)
  ]

  known-Kept :
      let (s', it', b) = add_fn id name (some it) s in Kept s s' × (s'.fn_order ≡ s.fn_order)
  unfolding add_fn
  known-Kept = (ground arith, ground arith)

-- Both sides know the same calls.
pub same_calls :
    (id : String) (s : ResponsesState) (c : AggregateCore)
    → IsSynced s c
    → map_option arguments_of (lookup id s.fn_items) ≡ map_option input_of (lookup id c.tools)
same_calls id s c y =
    sym (lookup-map_values arguments_of id s.fn_items)
    ∙ ap (lookup id) y.calls
    ∙ lookup-map_values input_of id c.tools

abbrev new_item : String → ResponsesState → FnItem
new_item name s = record { item_id = s.next_item; name = name; idx = s.next_item; args = "" }

new_step :
    (id name arguments : String) (s : ResponsesState) (c : AggregateCore)
    → IsSynced s c
    → IsSynced
        (call_frames id arguments (add_fn id name none s)).0
        (feed_call id name arguments none c)
unfolding add_fn feed_call
new_step id name arguments s c y =
    let it = new_item name s in
    let s' : ResponsesState = (add_fn id name none s).0 in
    let k = call_frames-Kept id arguments s' it true in
    record {
      tracked = k.tools ∙ y.tracked;
      text = k.text ∙ y.text;
      reasoning = k.reasoning ∙ y.reasoning;
      ordered =
          fn_order-call_frames id arguments s' it true
          ∙ ap (λ (r : List String). r ++ id ∷ []) y.ordered;
      calls =
          args-call_frames id arguments s' it true (insert id "" (map_values input_of c.tools))
            (lookup-insert id id it s.fn_items ∙ rw (eq_refl id))
            (map_values-insert_args id it s.fn_items _ y.calls)
          ∙ insert_twice id "" (append "" arguments) (map_values input_of c.tools)
          ∙ sym (map_values-insert input_of id _ c.tools);
      no_text = λ h. k.text ∙ y.no_text (sym k.text_item ∙ h);
      no_reasoning = λ h. k.reasoning ∙ y.no_reasoning (sym k.reason_item ∙ h);
    }

known_step :
    (id name arguments : String) (s : ResponsesState) (c : AggregateCore) (it : FnItem)
    (t : AggrTool)
    → lookup id s.fn_items ≡ some it
    → it.args ≡ t.input
    → IsSynced s c
    → IsSynced
        (call_frames id arguments (add_fn id name (some it) s)).0
        (feed_call id name arguments (some t) c)
unfolding feed_call
known_step id name arguments s c it t p e y =
    let (s', it', b) = add_fn id name (some it) s in
    let (kept, order) = known-Kept id name s it p in
    let (args, base) = known_args id name s it p in
    let k = call_frames-Kept id arguments s' it' b in
    record {
      tracked = k.tools ∙ kept.tools ∙ y.tracked;
      text = k.text ∙ kept.text ∙ y.text;
      reasoning = k.reasoning ∙ kept.reasoning ∙ y.reasoning;
      ordered = fn_order-call_frames id arguments s' it' b ∙ order ∙ y.ordered;
      calls =
          args-call_frames id arguments s' it' b (map_values input_of c.tools)
            (known_stored id name s it p) (base ∙ y.calls)
          ∙ ap (λ (x : String). insert id (append x arguments) (map_values input_of c.tools))
              (args ∙ e)
          ∙ sym (map_values-insert input_of id _ c.tools);
      no_text = λ h. k.text ∙ kept.text ∙ y.no_text (sym kept.text_item ∙ sym k.text_item ∙ h);
      no_reasoning = λ h.
          k.reasoning
          ∙ kept.reasoning
          ∙ y.no_reasoning (sym kept.reason_item ∙ sym k.reason_item ∙ h);
    }

pub call_step :
    (id name arguments : String) (s : ResponsesState) (c : AggregateCore) (it : Option FnItem)
    (t : Option AggrTool)
    → lookup id s.fn_items ≡ it
    → map_option arguments_of it ≡ map_option input_of t
    → IsSynced s c
    → IsSynced (call_frames id arguments (add_fn id name it s)).0 (feed_call id name arguments t c)
call_step id name arguments s c none none p q y = new_step id name arguments s c y
call_step id name arguments s c none (some t) p q y = absurd (cc)
call_step id name arguments s c (some it) none p q y = absurd (cc)
call_step id name arguments s c (some it) (some t) p q y =
    known_step id name arguments s c it t p (cc) y
