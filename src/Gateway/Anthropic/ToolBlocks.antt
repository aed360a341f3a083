-- ===== src/Gateway/Anthropic/ToolBlocks.antt =====
-- Tool blocks: a new one, and more arguments for an open one.
use claw_proxy_hub_next.Base.{
  ℕ, suc, String, ◌==◌, str_eq, eq_iff, eq_refl, ◌≡◌, refl, sym, ap, subst, ◌||◌, ◌∙◌, inl, inr,
  true, false, Option, none, some, List, [], ◌∷◌, ◌++◌, lookup, insert, insert_new, lookup-insert,
  values, arith, Bool-cases,
}
use claw_proxy_hub_next.Gateway.Aggregate.{AggrTool}
use claw_proxy_hub_next.Gateway.Anthropic.Client.{Block, tool, update}
use claw_proxy_hub_next.Gateway.Anthropic.Blocks.{
  Rising-append, Known, Agree, elem, unclosed-update,
}

values-append :
    (m : List (String × ℕ)) (k : String) (v : ℕ) → values (m ++ (k, v) ∷ []) ≡ values m ++ v ∷ []
values-append [] k v = refl
values-append ((j, w) ∷ m) k v = ap (λ (r : List ℕ). w ∷ r) (values-append m k v)

elem-append : (i j : ℕ) (js : List ℕ) → elem i (js ++ j ∷ []) ≡ elem i js || i == j
elem-append i j [] = ground arith
elem-append i j (k ∷ js) = ground (arith, elem-append i j js)

pub elem-lookup :
    (k : String) (i : ℕ) (m : List (String × ℕ)) → lookup k m ≡ some i → elem i (values m) ≡ true
unfolding lookup
elem-lookup k i [] h = cc
elem-lookup k i ((j, v) ∷ m) h = ground (arith, elem-lookup k i m)

module _ (think words : Option ℕ) (next : ℕ) (opened : List (String × ℕ))
    (tools : List (String × AggrTool)) (f : ℕ → Block) (a : Agree think words next opened tools f)
    (id : String) (t : AggrTool) (named : t.id ≡ id) where
  -- The call `id` as the update shows it.
  Known-here :
      (j i : ℕ) → (i == j) ≡ true → Known (insert id t tools) (update f j (tool true t)) id i
  Known-here j i e = record {
    call = t;
    found = lookup-insert id id t tools ∙ rw (eq_refl id);
    named = named;
    shown = rw e;
  }

  -- Another call keeps its place and its block.
  Known-other :
      (j : ℕ) (k : String) (i : ℕ)
      → str_eq id k ≡ false
      → (i == j) ≡ false
      → Known tools f k i
      → Known (insert id t tools) (update f j (tool true t)) k i
  Known-other j k i e n h = record {
    call = h.call;
    found = lookup-insert id k t tools ∙ rw e h.found;
    named = h.named;
    shown = rw n h.shown;
  }

  pub open_tool-Agree :
      lookup id opened ≡ none
      → Agree think words
          (suc next)
          (insert id next opened)
          (insert id t tools)
          (update f next (tool true t))
  open_tool-Agree miss = record {
    thinks = λ i h. ground (arith, a.thinks i, a.fresh next);
    writes = λ i h. ground (arith, a.writes i, a.fresh next);
    unknown = λ k h.
        ground (arith, lookup-insert id k t tools, lookup-insert id k next opened, a.unknown k);
    known = λ k i h. elim (Bool-cases (str_eq id k)) [
      | inl e ↦
          subst (λ x. Known (insert id t tools) (update f next (tool true t)) x i)
            ((eq_iff id k).0 e) (Known-here next i (ground (arith, lookup-insert id k next opened)))
      | inr e ↦
          let old : lookup k opened ≡ some i = sym (lookup-insert id k next opened ∙ rw e) ∙ h in
          Known-other next k i e (ground (arith, (a.known k i old).shown, a.fresh next))
            (a.known k i old)
    ];
    fresh = λ i h. ground (arith, a.fresh i);
    rising =
        rw (insert_new id next opened miss, values-append opened id next)
          (Rising-append 0 (values opened) next a.rising);
    listed = λ i h. elim (Bool-cases (i == next)) [
      | inl e ↦ (t, rw e)
      | inr e ↦ rw e (
          a.listed i (
            ground (
              arith,
              ap (λ (x : List (String × ℕ)). elem i (values x)) (insert_new id next opened miss),
              ap (elem i) (values-append opened id next),
              elem-append i next (values opened),
            )))
    ];
    only = λ i h. elim (Bool-cases (i == next)) [
      | inl e ↦ inr (inr (id, lookup-insert id id next opened ∙ rw (eq_refl id) (ground arith)))
      | inr e ↦ elim (a.only i (rw e at h)) [
        | inl q ↦ inl q
        | inr q ↦ inr (elim q [
          | inl w ↦ inl w
          | inr (k, w) ↦ inr (k, lookup-insert id k next opened ∙ ground (arith, eq_iff id k))
        ])
      ]
    ];
    unclosed =
        unclosed-update think words next opened tools f next (tool true t) (λ u e. cc) a.unclosed;
  }

  pub extend_tool-Agree :
      (j : ℕ)
      → lookup id opened ≡ some j
      → Agree think words next opened (insert id t tools) (update f j (tool true t))
  extend_tool-Agree j hit =
      let was = a.known id j hit in
      record {
        thinks = λ i h. ground (arith, a.thinks i, was.shown);
        writes = λ i h. ground (arith, a.writes i, was.shown);
        unknown = λ k h. ground (arith, lookup-insert id k t tools, a.unknown k, eq_iff id k);
        known = λ k i h. elim (Bool-cases (str_eq id k)) [
          | inl e ↦
              subst (λ x. Known (insert id t tools) (update f j (tool true t)) x i)
                ((eq_iff id k).0 e) (Known-here j i (ground (arith, eq_iff id k)))
          | inr e ↦
              let k' = a.known k i h in
              Known-other j k i e
                (ground (arith, k'.shown, was.shown, k'.named, was.named, eq_iff id k)) k'
        ];
        fresh = λ i h. ground (arith, a.fresh i, was.shown);
        rising = a.rising;
        listed =
            λ i h. elim (Bool-cases (i == j)) [ inl e ↦ (t, rw e) | inr e ↦ rw e (a.listed i h) ];
        only = λ i h. elim (Bool-cases (i == j)) [
          | inl e ↦ inr (inr (id, hit ∙ ground arith))
          | inr e ↦ a.only i (rw e at h)
        ];
        unclosed =
            unclosed-update think words next opened tools f j (tool true t) (λ u e. cc) a.unclosed;
      }
