-- ===== src/Gateway/Anthropic/Stops.antt =====
-- The stops that end a message.
use mathlib.Core.Path.{fun_ext}
use claw_proxy_hub_next.Base.{
  ℕ, suc, ◌<◌, ◌==◌, ◌≡◌, refl, ap, ◌∙◌, true, false, some, List, [], ◌∷◌, ◌++◌, map, arith,
  if◌then◌else◌, Bool-cases, inl, inr,
}
use claw_proxy_hub_next.Gateway.Anthropic.{Frame, content_block_stop, sorted_values}
use claw_proxy_hub_next.Gateway.Anthropic.Client.{
  Block, unused, thinking, text, tool, Message, put, update, is_open, stop_block, receive, assemble,
}
use claw_proxy_hub_next.Gateway.Anthropic.Blocks.{Rising, elem}

-- The stop of the blocks `js`.
abbrev pub close : Block → Block
close (thinking b) = thinking false
close (text b) = text false
close (tool b t) = tool false t
close unused = unused

abbrev pub close_all : (ℕ → Block) → List ℕ → ℕ → Block
close_all f js i = if elem i js then close (f i) else f i

elem-lt : (i lo : ℕ) (js : List ℕ) (hi : ℕ) → Rising lo js hi → i < lo → elem i js ≡ false
elem-lt i lo [] hi r h = refl
elem-lt i lo (j ∷ js) hi r h = ground (arith, r.0, elem-lt i (suc j) js hi r.1)

pub sorted-Rising : (lo : ℕ) (js : List ℕ) (hi : ℕ) → Rising lo js hi → sorted_values js ≡ js
unfolding sorted_values
sorted-Rising lo [] hi r = refl
sorted-Rising lo (j ∷ []) hi r = refl
sorted-Rising lo (j ∷ k ∷ js) hi r =
    let rest = sorted-Rising (suc j) (k ∷ js) hi r.1 in rw rest (ground (arith, r.1))

stop-open :
    (m : Message) (j : ℕ) (b : Block)
    → is_open b ≡ true
    → stop_block m j b ≡ some (put m j (close b))
unfolding stop_block
stop-open m j b h = ground arith

close-update :
    (f : ℕ → Block) (j lo : ℕ) (js : List ℕ) (hi : ℕ)
    → Rising lo (j ∷ js) hi
    → close_all (update f j (close (f j))) js ≡ close_all f (j ∷ js)
close-update f j lo js hi r = fun_ext λ i. elim (Bool-cases (i == j)) [
  | inl e ↦ ground (arith, elem-lt i (suc j) js hi r.1)
  | inr e ↦ rw e
]

-- The client takes the stops of open tool blocks, and has those closed.
pub stops :
    (m : Message) (lo : ℕ) (js : List ℕ) (hi : ℕ) (rest : List Frame)
    → Rising lo js hi
    → ((i : ℕ) → elem i js ≡ true → is_open (m.blocks i) ≡ true)
    → assemble m (map content_block_stop js ++ rest)
      ≡ assemble (record m { blocks = close_all m.blocks js }) rest
unfolding assemble receive
stops m lo [] hi rest r h = refl
stops m lo (j ∷ js) hi rest r h =
    rw (stop-open m j (m.blocks j) (h j (ground arith)), assemble)
      (stops (put m j (close (m.blocks j))) (suc j) js hi rest r.1 (λ i e.
          elim (Bool-cases (i == j)) [
            | inl q ↦ absurd (ground (arith, elem-lt i (suc j) js hi r.1))
            | inr q ↦ rw q (h i (rw (q, e)))
          ])
        ∙ ap (λ (g : ℕ → Block). assemble (record m { blocks = g }) rest)
            (close-update m.blocks j lo js hi r))
