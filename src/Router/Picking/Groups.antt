-- ===== src/Router/Picking/Groups.antt =====
-- `pickGroup` draws fairly: as from a box with one ticket for each unit of weight.
use claw_proxy_hub_next.Base.{
  ℕ, zero, suc, ◌+◌, ◌-◌, ◌≤◌, ◌<◌, ◌==◌, ltb, Bool, true, false, none, some, List, [], ◌∷◌, length,
  get_elem?, ◌≡◌, refl, sym, ◌∙◌, ap, if◌then◌else◌, Bool-cases, lt→ltb, ltb→lt, inl, inr, add64,
  sub64, negative64, int64_max, arith,
}
use claw_proxy_hub_next.Data.{RouteGroupEntry}
use claw_proxy_hub_next.Router.Picking.{weight_of, weighted, total_weight, walk, pick_group}

abbrev copies : ℕ → RouteGroupEntry → List RouteGroupEntry → List RouteGroupEntry
copies zero x xs = xs
copies (suc n) x xs = x ∷ copies n x xs

-- Every entry, as often as its weight says.
unfoldable pub tickets : List RouteGroupEntry → List RouteGroupEntry
tickets [] = []
tickets (e ∷ es) = copies (weight_of e) (weighted e) (tickets es)

length-copies :
    (n : ℕ) (x : RouteGroupEntry) (xs : List RouteGroupEntry)
    → length (copies n x xs) ≡ n + length xs
length-copies zero x xs = omega arith
length-copies (suc n) x xs = omega (arith, length-copies n x xs)

copies_front :
    (n : ℕ) (x : RouteGroupEntry) (xs : List RouteGroupEntry) (i : ℕ)
    → i < n
    → get_elem? (copies n x xs) i ≡ some x
copies_front zero x xs i l = absurd (omega arith)
copies_front (suc n) x xs zero l = refl
copies_front (suc n) x xs (suc i) l = copies_front n x xs i (omega arith)

copies_behind :
    (n : ℕ) (x : RouteGroupEntry) (xs : List RouteGroupEntry) (i : ℕ)
    → n ≤ i
    → get_elem? (copies n x xs) i ≡ get_elem? xs (i - n)
copies_behind zero x xs i l = ap (get_elem? xs) (omega arith)
copies_behind (suc n) x xs zero l = absurd (omega arith)
copies_behind (suc n) x xs (suc i) l =
    copies_behind n x xs i (omega arith) ∙ ap (get_elem? xs) (omega arith)

weight_of_bounds : (e : RouteGroupEntry) → (0 < weight_of e) × (weight_of e ≤ int64_max)
unfolding weight_of
weight_of_bounds e = ground arith

total_weight_lem :
    (t : ℕ) (es : List RouteGroupEntry)
    → t + length (tickets es) ≤ int64_max
    → total_weight t es ≡ t + length (tickets es)
unfolding total_weight tickets
total_weight_lem t [] l = omega arith
total_weight_lem t (e ∷ es) l =
    let c = length-copies (weight_of e) (weighted e) (tickets es) in
    let s : add64 t (weight_of e) ≡ t + weight_of e = omega arith in
    rw s (total_weight_lem (t + weight_of e) es (omega arith) ∙ omega arith)

drawn : (n w : ℕ) → n < w → w ≤ int64_max → negative64 (sub64 n w) ≡ true
drawn n w l m = lt→ltb int64_max (sub64 n w) (omega arith)

passed : (n w : ℕ) → w ≤ n → n ≤ int64_max → sub64 n w ≡ n - w
passed n w l m = omega arith

small : (n : ℕ) → n ≤ int64_max → negative64 n ≡ false
small n m = ground arith

if_true {ℓ} : {A : Type ℓ} (b : Bool) (x y : A) → b ≡ true → (if b then x else y) ≡ x
if_true true x y e = refl
if_true false x y e = absurd (cc)

if_false {ℓ} : {A : Type ℓ} (b : Bool) (x y : A) → b ≡ false → (if b then x else y) ≡ y
if_false false x y e = refl
if_false true x y e = absurd (cc)

walk_lem :
    (n : ℕ) (e : RouteGroupEntry) (es : List RouteGroupEntry)
    → n < length (tickets (e ∷ es))
    → length (tickets (e ∷ es)) ≤ int64_max
    → some (walk n e es) ≡ get_elem? (tickets (e ∷ es)) n
unfolding walk tickets
walk_lem n e [] l m =
    let w = weight_of e in
    let bound = (weight_of_bounds e).1 in
    let c = length-copies w (weighted e) [] in
    let here : n < w = omega arith in
    ap some (if_true (negative64 (sub64 n w)) (weighted e) e (drawn n w here bound))
    ∙ sym (copies_front w (weighted e) [] n here)
walk_lem n e (e' ∷ es) l m =
    let w = weight_of e in
    let bound = (weight_of_bounds e).1 in
    let box = tickets (e' ∷ es) in
    let c = length-copies w (weighted e) box in
    elim (Bool-cases (ltb n w)) [
      | inl t ↦
          let here = ltb→lt n w t in
          ap some (
            if_true (negative64 (sub64 n w)) (weighted e) (walk (sub64 n w) e' es)
              (drawn n w here bound))
          ∙ sym (copies_front w (weighted e) box n here)
      | inr t ↦
          let behind : w ≤ n = ground arith in
          let q : sub64 n w ≡ n - w = passed n w behind (omega arith) in
          let s : negative64 (sub64 n w) ≡ false = small (sub64 n w) (omega arith) in
          ap some (if_false (negative64 (sub64 n w)) (weighted e) (walk (sub64 n w) e' es) s)
          ∙ ap (λ i. some (walk i e' es)) q
          ∙ walk_lem (n - w) e' es (omega arith) (omega arith)
          ∙ sym (copies_behind w (weighted e) box n behind)
    ]

in_range :
    (intn : ℕ → ℕ) (e : RouteGroupEntry) (es : List RouteGroupEntry) (t n : ℕ)
    → t ≡ n
    → 0 < n
    → n ≤ int64_max
    → (if t == 0 then some e else if negative64 t then none else some (walk (intn t) e es))
      ≡ some (walk (intn n) e es)
in_range intn e es t n q p m =
    let z : (t == 0) ≡ false = ground arith in
    let s : negative64 t ≡ false = small t (omega arith) in
    if_false (t == 0) (some e) _ z
    ∙ if_false (negative64 t) none (some (walk (intn t) e es)) s
    ∙ ap (λ i. some (walk (intn i) e es)) q

-- Within the range of an `int`, the drawn number picks the ticket with that number; an entry without a
-- positive weight has one ticket.
pub pick_group-tickets :
    (intn : ℕ → ℕ) (e : RouteGroupEntry) (es : List RouteGroupEntry)
    → length (tickets (e ∷ es)) ≤ int64_max
    → intn (length (tickets (e ∷ es))) < length (tickets (e ∷ es))
    → pick_group intn e es ≡ get_elem? (tickets (e ∷ es)) (intn (length (tickets (e ∷ es))))
unfolding pick_group
pick_group-tickets intn e es m l =
    let n = length (tickets (e ∷ es)) in
    let t : total_weight 0 (e ∷ es) ≡ n = total_weight_lem 0 (e ∷ es) (omega arith) ∙ omega arith in
    in_range intn e es (total_weight 0 (e ∷ es)) n t (omega arith) m ∙ walk_lem (intn n) e es l m
