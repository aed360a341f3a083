-- ===== src/Gateway/ModelIds.antt =====
-- internal/gateway/modelids.go: the models that a client is told of.
use mathlib.Core.List.{append-nil}
use claw_proxy_hub_next.Base.{
  ℕ, suc, ◌==◌, String, str_eq, eq_iff, ◌||◌, List, [], ◌∷◌, ◌++◌, ◌≡◌, refl, ◌∙◌, ap,
  if◌then◌else◌, exists, arith, Bool-cases, inl, inr,
}

-- The loops, with the identifiers that were `seen`.
unfoldable pub add_ids : List String → List String → List String
add_ids seen [] = []
add_ids seen (id ∷ ids) =
    let skipped = add_ids seen ids in
    let kept = add_ids (id ∷ seen) ids in
    if str_eq id "" || exists (λ s. str_eq s id) seen then skipped else id ∷ kept

-- `publicModelIDs`: the outer loop takes the routes, and then the models of the accounts.
unfoldable pub public_model_ids : List String → List String → List String
unfolding add_ids
public_model_ids routes direct = add_ids [] (routes ++ direct)

abbrev pub count : String → List String → ℕ
count x [] = 0
count x (y ∷ ys) = let n = count x ys in if str_eq y x then suc n else n

count-add_ids :
    (x : String) (seen ids : List String)
    → count x (add_ids seen ids) ≡ (
        if str_eq x "" || exists (λ s. str_eq s x) seen
        then 0
        else if count x ids == 0
        then 0
        else 1)
unfolding add_ids
count-add_ids x seen [] = ground arith
count-add_ids x seen (id ∷ ids) = ground (
  arith,
  eq_iff id x,
  eq_iff id "",
  eq_iff x "",
  count-add_ids x seen ids,
  count-add_ids x (id ∷ seen) ids,
)

-- Every route's name and every account's model is listed once, the empty one never, and nothing else.
pub count-public_model_ids :
    (x : String) (routes direct : List String)
    → count x (public_model_ids routes direct)
      ≡ (if str_eq x "" then 0 else if count x (routes ++ direct) == 0 then 0 else 1)
unfolding public_model_ids
count-public_model_ids x routes direct = count-add_ids x [] (routes ++ direct) ∙ ground arith

add_ids-append :
    (seen xs ys : List String)
    → (zs : List String) × (add_ids seen (xs ++ ys) ≡ add_ids seen xs ++ zs)
unfolding add_ids
add_ids-append seen [] ys = (add_ids seen ys, refl)
add_ids-append seen (id ∷ xs) ys =
    let (zs, e) = add_ids-append seen xs ys in
    let (zs', e') = add_ids-append (id ∷ seen) xs ys in
    elim (Bool-cases (str_eq id "" || exists (λ s. str_eq s id) seen)) [
      | inl t ↦ (zs, rw t e)
      | inr t ↦ (zs', rw t (ap (λ l. id ∷ l) e'))
    ]

-- The names of the routes come first, and what the accounts have does not change them.
pub public_model_ids-routes :
    (routes direct : List String)
    → (rest : List String) × (public_model_ids routes direct ≡ public_model_ids routes [] ++ rest)
unfolding public_model_ids
public_model_ids-routes routes direct =
    let (rest, e) = add_ids-append [] routes direct in (rest, rw (append-nil routes) e)
