-- ===== src/Gateway/Responses/Names.antt =====
-- The names of the calls, which the encoder takes from a later delta where the first has none.
use claw_proxy_hub_next.Base.{
  String, str_eq, eq_iff, eq_refl, ◌≡◌, refl, sym, subst, ◌∙◌, Bool, true, false, not, ◌&&◌,
  and_left, Option, none, some, some_injective, List, [], ◌∷◌, lookup, insert, lookup-insert,
  map_option, if◌then◌else◌, Bool-cases, inl, inr,
}
use claw_proxy_hub_next.Gateway.Envelope.{
  StreamEvent, message_start, content_delta, tool_call_delta, message_finish, task_failed, not_set,
}
use claw_proxy_hub_next.Gateway.ToolCalls.{resolve}
use claw_proxy_hub_next.Gateway.Aggregate.{AggrTool, AggregateCore, feed, feed_call, feed_all}
use claw_proxy_hub_next.Gateway.Responses.{
  FnItem, ResponsesState, add_fn, call_frames, text_frames, reasoning_frames, convert_event, encode,
}
use claw_proxy_hub_next.Gateway.Responses.Calls.{
  IsSynced, same_calls, known_stored, arguments_of, input_of,
}
use claw_proxy_hub_next.Gateway.Responses.Sync.{step}

-- An item has the name of its call in the aggregate, if that has one.
abbrev pub NameFits : FnItem → AggrTool → Type 0
NameFits it t = str_eq t.name "" ≡ false → it.name ≡ t.name

pub Names : List (String × FnItem) → List (String × AggrTool) → Type 0
Names m n =
    (k : String) (it : FnItem) (t : AggrTool)
    → lookup k m ≡ some it
    → lookup k n ≡ some t
    → NameFits it t

-- The entry at a key of a map with an insertion: the inserted one or that of the map.
at_insert :
    {A : Type 0} (id k : String) (v x : A) (m : List (String × A)) (b : Bool)
    → str_eq id k ≡ b
    → lookup k (insert id v m) ≡ some x
    → (if b then some v else lookup k m) ≡ some x
at_insert id k v x m b e h =
    subst (λ (c : Bool). (if c then some v else lookup k m) ≡ some x) e
      (sym (lookup-insert id k v m) ∙ h)

module _ (id : String) (m : List (String × FnItem)) (n : List (String × AggrTool)) where
  insert_left :
      (it it' : FnItem)
      → Names m n
      → lookup id m ≡ some it
      → ((t : AggrTool) → NameFits it t → NameFits it' t)
      → Names (insert id it' m) n
  unfolding Names
  insert_left it it' fits found more k x t h g = elim (Bool-cases (str_eq id k)) [
    | inl e ↦
        let same : it' ≡ x = some_injective (at_insert id k it' x m true e h) in
        let here : lookup k m ≡ some it =
          subst (λ j. lookup j m ≡ some it) ((eq_iff id k).0 e) found in
        subst (λ y. NameFits y t) same (more t (fits k it t here g))
    | inr e ↦ fits k x t (at_insert id k it' x m false e h) g
  ]

  insert_right :
      (t t' : AggrTool)
      → Names m n
      → lookup id n ≡ some t
      → t'.name ≡ t.name
      → Names m (insert id t' n)
  unfolding Names
  insert_right t t' fits found named k it x h g = elim (Bool-cases (str_eq id k)) [
    | inl e ↦
        let same : t' ≡ x = some_injective (at_insert id k t' x n true e g) in
        let here : lookup k n ≡ some t =
          subst (λ j. lookup j n ≡ some t) ((eq_iff id k).0 e) found in
        subst (λ y. NameFits it y) same
          (λ full. fits k it t h here (subst (λ s. str_eq s "" ≡ false) named full) ∙ sym named)
    | inr e ↦ fits k it x h (at_insert id k t' x n false e g)
  ]

  insert_both :
      (it : FnItem) (t : AggrTool)
      → Names m n
      → NameFits it t
      → Names (insert id it m) (insert id t n)
  unfolding Names
  insert_both it t fits new k x y h g = elim (Bool-cases (str_eq id k)) [
    | inl e ↦
        let left : it ≡ x = some_injective (at_insert id k it x m true e h) in
        let right : t ≡ y = some_injective (at_insert id k t y n true e g) in
        subst (λ z. NameFits z y) left (subst (λ z. NameFits it z) right new)
    | inr e ↦ fits k x y (at_insert id k it x m false e h) (at_insert id k t y n false e g)
  ]

-- The arguments of a delta.
frames-Names :
    (id arguments : String) (s : ResponsesState) (it : FnItem) (b : Bool)
    (n : List (String × AggrTool))
    → lookup id s.fn_items ≡ some it
    → Names s.fn_items n
    → Names (call_frames id arguments (s, it, b)).0.fn_items n
unfolding call_frames
frames-Names id arguments s it b n found fits = elim (Bool-cases (str_eq arguments "")) [
  | inl e ↦ rw e fits
  | inr e ↦ rw e (insert_left id s.fn_items n it _ fits found (λ t f. f))
]

-- A call that is known gets a name where it had none.
known-Names :
    (id name : String) (s : ResponsesState) (it : FnItem) (n : List (String × AggrTool))
    → lookup id s.fn_items ≡ some it
    → Names s.fn_items n
    → Names (add_fn id name (some it) s).0.fn_items n
unfolding add_fn
known-Names id name s it n found fits =
    elim (Bool-cases (str_eq it.name "" && not (str_eq name ""))) [
      | inl e ↦ rw e (
          insert_left id s.fn_items n it (record it { name = name }) fits found
            (λ t f full.
              let none_yet : str_eq it.name "" ≡ true = and_left (str_eq it.name "") _ e in
              let same : it.name ≡ t.name = f full in
              absurd (
                let wrong : str_eq t.name "" ≡ true =
                  subst (λ x. str_eq x "" ≡ true) same none_yet in
                cc)))
      | inr e ↦ rw e fits
    ]

call-Names :
    (id name arguments : String) (s : ResponsesState) (c : AggregateCore) (it : Option FnItem)
    (t : Option AggrTool)
    → lookup id s.fn_items ≡ it
    → lookup id c.tools ≡ t
    → map_option arguments_of it ≡ map_option input_of t
    → Names s.fn_items c.tools
    → Names
        (call_frames id arguments (add_fn id name it s)).0.fn_items
        (feed_call id name arguments t c).tools
unfolding feed_call
call-Names id name arguments s c none none p q e fits =
    let it : FnItem = record { item_id = s.next_item; name = name; idx = s.next_item; args = "" } in
    let (s', it', b) = add_fn id name none s in
    frames-Names id arguments s' it' b _
      (unfold add_fn in lookup-insert id id it s.fn_items ∙ rw (eq_refl id) refl)
      (unfold add_fn in insert_both id s.fn_items c.tools it _ fits (λ full. refl))
call-Names id name arguments s c none (some t) p q e fits = absurd (cc)
call-Names id name arguments s c (some it) none p q e fits = absurd (cc)
call-Names id name arguments s c (some it) (some t) p q e fits =
    let (s', it', b) = add_fn id name (some it) s in
    frames-Names id arguments s' it' b _ (known_stored id name s it p)
      (insert_right id s'.fn_items c.tools t _ (known-Names id name s it c.tools p fits) q refl)

Names-step :
    (hex : String) (s : ResponsesState) (c : AggregateCore) (ev : StreamEvent)
    → IsSynced s c
    → Names s.fn_items c.tools
    → Names (convert_event hex s ev).0.fn_items (feed hex c ev).tools
unfolding convert_event feed text_frames reasoning_frames
Names-step hex s c (message_start model) y fits = fits
Names-step hex s c (content_delta t true) y fits =
    elim s.reason_item as (λ m. Names (reasoning_frames t m s).0.fn_items c.tools) [
      | none ↦ fits
      | some i ↦ fits
    ]
Names-step hex s c (content_delta t false) y fits =
    elim s.text_item as (λ m. Names (text_frames t m s).0.fn_items c.tools) [
      | none ↦ fits
      | some i ↦ fits
    ]
Names-step hex s c (tool_call_delta ev) y fits =
    let (track, id, name) = resolve hex c.track ev in
    rw y.tracked (
      call-Names id name ev.arguments_delta (record s { tools = track })
        (record c { track = track }) (lookup id s.fn_items) (lookup id c.tools) refl refl
        (same_calls id s c y) fits)
Names-step hex s c (message_finish reason none) y fits = fits
Names-step hex s c (message_finish reason (some u)) y fits = fits
Names-step hex s c (task_failed e detail) y fits = fits
Names-step hex s c not_set y fits = fits

pub Names-run :
    (hex : String) (s : ResponsesState) (c : AggregateCore) (evs : List StreamEvent)
    → IsSynced s c
    → Names s.fn_items c.tools
    → Names (encode hex s evs).0.fn_items (feed_all hex c evs).tools
unfolding encode feed_all
Names-run hex s c [] y fits = fits
Names-run hex s c (ev ∷ evs) y fits =
    Names-run hex (convert_event hex s ev).0 (feed hex c ev) evs (step hex s c ev y)
      (Names-step hex s c ev y fits)

pub no-Names : Names [] []
unfolding Names lookup
no-Names k it t h g = absurd (cc)

pub Names-at :
    (m : List (String × FnItem)) (n : List (String × AggrTool)) (k : String) (it : FnItem)
    (t : AggrTool)
    → Names m n
    → lookup k m ≡ some it
    → lookup k n ≡ some t
    → NameFits it t
unfolding Names
Names-at m n k it t fits h g = fits k it t h g
