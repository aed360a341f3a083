-- ===== src/Gateway/Anthropic/Blocks.antt =====
-- Which blocks are open, as the encoder keeps them and as the client sees them.
use claw_proxy_hub_next.Base.{
  ℕ, suc, ◌≤◌, String, ◌==◌, ◌≡◌, refl, ◌⊎◌, inl, inr, Bool, true, false, ◌||◌, Option, none, some,
  List, [], ◌∷◌, ◌++◌, lookup, values, arith, Bool-cases,
}
use claw_proxy_hub_next.Gateway.Aggregate.{AggrTool}
use claw_proxy_hub_next.Gateway.Anthropic.Client.{
  Block, unused, thinking, text, tool, update, is_open,
}

-- Numbers from `lo` on and below `hi`, each above the one before it.
abbrev pub Rising : ℕ → List ℕ → ℕ → Type 0
Rising lo [] hi = lo ≤ hi
Rising lo (x ∷ xs) hi = (lo ≤ x) × Rising (suc x) xs hi

pub Rising-append :
    (lo : ℕ) (xs : List ℕ) (hi : ℕ) → Rising lo xs hi → Rising lo (xs ++ hi ∷ []) (suc hi)
Rising-append lo [] hi r = omega arith
Rising-append lo (x ∷ xs) hi r = (r.0, Rising-append (suc x) xs hi r.1)

pub Rising-weaken : (lo : ℕ) (xs : List ℕ) (hi : ℕ) → Rising lo xs hi → Rising lo xs (suc hi)
Rising-weaken lo [] hi r = omega arith
Rising-weaken lo (x ∷ xs) hi r = (r.0, Rising-weaken (suc x) xs hi r.1)

-- The call `id` stands in the aggregate as the client's open block `i` shows it.
pub record Known (tools : List (String × AggrTool)) (f : ℕ → Block) (id : String) (i : ℕ)
    : Type 0 where
  pub call : AggrTool
  pub found : lookup id tools ≡ some call
  pub named : call.id ≡ id
  pub shown : f i ≡ tool true call

abbrev pub elem : ℕ → List ℕ → Bool
elem i [] = false
elem i (j ∷ js) = i == j || elem i js

abbrev pub Owned : Option ℕ → Option ℕ → List (String × ℕ) → ℕ → Type 0
Owned think words opened i =
    (think ≡ some i) ⊎ ((words ≡ some i) ⊎ ((id : String) × (lookup id opened ≡ some i)))

-- The encoder's thinking block, text block, next index and tool blocks against the calls of the
-- aggregate and the client's blocks.
pub record Agree (think words : Option ℕ) (next : ℕ) (opened : List (String × ℕ))
    (tools : List (String × AggrTool)) (f : ℕ → Block) : Type 0 where
  pub thinks : (i : ℕ) → think ≡ some i → f i ≡ thinking true
  pub writes : (i : ℕ) → words ≡ some i → f i ≡ text true
  pub unknown : (id : String) → lookup id opened ≡ none → lookup id tools ≡ none
  pub known : (id : String) (i : ℕ) → lookup id opened ≡ some i → Known tools f id i
  pub fresh : (i : ℕ) → next ≤ i → f i ≡ unused
  pub rising : Rising 0 (values opened) next
  pub listed : (i : ℕ) → elem i (values opened) ≡ true → (t : AggrTool) × (f i ≡ tool true t)
  pub only : (i : ℕ) → is_open (f i) ≡ true → Owned think words opened i
  pub unclosed : (i : ℕ) (t : AggrTool) → f i ≡ tool false t → ⊥

module _ (think words : Option ℕ) (next : ℕ) (opened : List (String × ℕ))
    (tools : List (String × AggrTool)) (f : ℕ → Block) where
  -- A write to a block that shows no open call keeps the calls.
  pub Known-update :
      (j : ℕ) (b : Block)
      → ((t : AggrTool) → f j ≡ tool true t → ⊥)
      → (id : String) (i : ℕ) → Known tools f id i
      → Known tools (update f j b) id i
  Known-update j b other id i k = record {
    call = k.call;
    found = k.found;
    named = k.named;
    shown = elim (Bool-cases (i == j)) [
      | inl e ↦ absurd (other k.call (ground (arith, k.shown)))
      | inr e ↦ rw e k.shown
    ];
  }

  listed-update :
      (j : ℕ) (b : Block) (i : ℕ)
      → ((t : AggrTool) → f j ≡ tool true t → ⊥)
      → (t : AggrTool) × (f i ≡ tool true t)
      → (t : AggrTool) × (update f j b i ≡ tool true t)
  listed-update j b i other (t, h) = (
    t,
    elim (Bool-cases (i == j)) [ inl e ↦ absurd (other t (ground (arith, h))) | inr e ↦ rw e h ],
  )

  -- A write of another block than a closed call leaves no closed call.
  pub unclosed-update :
      (j : ℕ) (b : Block)
      → ((t : AggrTool) → b ≡ tool false t → ⊥)
      → ((i : ℕ) (t : AggrTool) → f i ≡ tool false t → ⊥)
      → (i : ℕ) (t : AggrTool) → update f j b i ≡ tool false t
      → ⊥
  unclosed-update j b other never i t h = elim (Bool-cases (i == j)) [
    | inl e ↦ other t (rw e at h)
    | inr e ↦ never i t (rw e at h)
  ]

  pub open_thinking-Agree :
      Agree none words next opened tools f
      → Agree (some next) words (suc next) opened tools (update f next (thinking true))
  open_thinking-Agree a = record {
    thinks = λ i h. ground arith;
    writes = λ i h. ground (arith, a.writes i, a.fresh next);
    unknown = a.unknown;
    known = λ id i h.
        Known-update next (thinking true) (λ t e. cc (a.fresh next (omega arith), e)) id i
          (a.known id i h);
    fresh = λ i h. ground (arith, a.fresh i);
    rising = Rising-weaken 0 (values opened) next a.rising;
    listed = λ i h.
        listed-update next (thinking true) i (λ t e. cc (a.fresh next (omega arith), e))
          (a.listed i h);
    only = λ i h. elim (Bool-cases (i == next)) [
      | inl e ↦ inl (ground arith)
      | inr e ↦ elim (a.only i (rw e at h)) [ inl q ↦ absurd (cc) | inr q ↦ inr q ]
    ];
    unclosed = unclosed-update next (thinking true) (λ t e. cc) a.unclosed;
  }

  pub open_text-Agree :
      Agree think none next opened tools f
      → Agree think (some next) (suc next) opened tools (update f next (text true))
  open_text-Agree a = record {
    thinks = λ i h. ground (arith, a.thinks i, a.fresh next);
    writes = λ i h. ground arith;
    unknown = a.unknown;
    known = λ id i h.
        Known-update next (text true) (λ t e. cc (a.fresh next (omega arith), e)) id i
          (a.known id i h);
    fresh = λ i h. ground (arith, a.fresh i);
    rising = Rising-weaken 0 (values opened) next a.rising;
    listed = λ i h.
        listed-update next (text true) i (λ t e. cc (a.fresh next (omega arith), e)) (a.listed i h);
    only = λ i h. elim (Bool-cases (i == next)) [
      | inl e ↦ inr (inl (ground arith))
      | inr e ↦ elim (a.only i (rw e at h)) [
        | inl q ↦ inl q
        | inr q ↦ inr (elim q [ inl w ↦ absurd (cc) | inr w ↦ inr w ])
      ]
    ];
    unclosed = unclosed-update next (text true) (λ t e. cc) a.unclosed;
  }

  pub stop_thinking-Agree :
      (j : ℕ)
      → Agree (some j) words next opened tools f
      → Agree none words next opened tools (update f j (thinking false))
  stop_thinking-Agree j a = record {
    thinks = λ i h. absurd (cc);
    writes = λ i h. ground (arith, a.writes i, a.thinks j);
    unknown = a.unknown;
    known = λ id i h.
        Known-update j (thinking false) (λ t e. cc (a.thinks j refl, e)) id i (a.known id i h);
    fresh = λ i h. ground (arith, a.fresh i, a.thinks j);
    rising = a.rising;
    listed =
        λ i h. listed-update j (thinking false) i (λ t e. cc (a.thinks j refl, e)) (a.listed i h);
    only = λ i h. elim (Bool-cases (i == j)) [
      | inl e ↦ absurd (ground arith)
      | inr e ↦ elim (a.only i (rw e at h)) [ inl q ↦ absurd (ground arith) | inr q ↦ inr q ]
    ];
    unclosed = unclosed-update j (thinking false) (λ t e. cc) a.unclosed;
  }
