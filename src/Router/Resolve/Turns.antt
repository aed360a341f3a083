-- ===== src/Router/Resolve/Turns.antt =====
-- The round robin takes the accounts of a group in turn.
use claw_proxy_hub_next.Base.{
  ℕ, zero, suc, ◌+◌, ◌%◌, ◌≤◌, ◌<◌, ◌==◌, ==_iff, true, false, Bool-cases, inl, inr, some, List, [],
  ◌∷◌, length, get_elem?, map_option, add64, negative64, int64_max, if◌then◌else◌, ◌≡◌, refl, sym,
  ap, ◌∙◌, arith,
}
use native.Mathlib.Nat.{mod-lt, suc-mod, mod_self, mod-eq_of_lt}
use claw_proxy_hub_next.Data.{Account}
use claw_proxy_hub_next.Router.Db.{accounts_in_group}
use claw_proxy_hub_next.Router.Picking.{rotate}
use claw_proxy_hub_next.Router.State.{Router}
use claw_proxy_hub_next.Router.Resolve.{rotate_from, by_round_robin}

get_elem?_in :
    (cs : List Account) (i : ℕ) → i < length cs → (a : Account) × (get_elem? cs i ≡ some a)
get_elem?_in [] i l = absurd (omega arith)
get_elem?_in (c ∷ cs) zero l = (c, refl)
get_elem?_in (c ∷ cs) (suc i) l = get_elem?_in cs i (omega arith)

rotate_lem :
    (idx : ℕ) (cs : List Account) → idx ≤ int64_max → rotate idx cs ≡ get_elem? cs (idx % length cs)
unfolding rotate
rotate_lem idx cs l = let s : negative64 idx ≡ false = ground arith in rw s refl

abbrev pub turned : Router → ℕ → Router
turned r route_id = record r { rr = λ i. if i == route_id then add64 (r.rr route_id) 1 else r.rr i }

turn :
    (r : Router) (route_id : ℕ) (cs : List Account)
    → 0 < length cs
    → r.rr route_id + 1 ≤ int64_max
    → (a : Account) × (get_elem? cs ((r.rr route_id + 1) % length cs) ≡ some a)
      × (rotate_from r route_id cs ≡ some (turned r route_id, some a))
unfolding rotate_from
turn r route_id [] l m = absurd (omega arith)
turn r route_id (c ∷ cs) l m =
    let n = length (c ∷ cs) in
    let idx = r.rr route_id + 1 in
    let e : add64 (r.rr route_id) 1 ≡ idx = omega arith in
    let (a, q) = get_elem?_in (c ∷ cs) (idx % n) (mod-lt idx l) in
    (
      a,
      q,
      ap (map_option (λ picked. (turned r route_id, some picked)))
          (ap (λ i. rotate i (c ∷ cs)) e ∙ rotate_lem idx (c ∷ cs) m ∙ q),
    )

-- The place behind `i` in a circle of `n`.
abbrev pub behind : ℕ → ℕ → ℕ
behind n i = if suc i == n then 0 else suc i

suc-mod_behind : (m n : ℕ) → 0 < n → suc m % n ≡ behind n (m % n)
suc-mod_behind m n l = suc-mod m n ∙ wrap (m % n) n (mod-lt m l)
  where
    wrap : (i n : ℕ) → i < n → suc i % n ≡ behind n i
    wrap i n l = elim (Bool-cases (suc i == n)) [
      | inl t ↦
          let q : suc i ≡ n = (==_iff (suc i) n).0 t in rw t (ap (λ (k : ℕ). k % n) q ∙ mod_self n)
      | inr f ↦ let low : suc i < n = ground arith in rw f (mod-eq_of_lt low)
    ]

-- Two calls of the round robin one after the other, for a route and a group with accounts, take an
-- account and the one behind it in the circle of the group's accounts, which is in the order of the
-- list, as long as the counter does not overflow; the first one is at the place that the counter says.
pub by_round_robin-turns :
    (r : Router) (now route_id group_id : ℕ)
    → 0 < length (accounts_in_group r.db now group_id)
    → r.rr route_id + 2 ≤ int64_max
    → let cs = accounts_in_group r.db now group_id in
      let n = length cs in
      let i = (r.rr route_id + 1) % n in
      (a : Account) × (b : Account) × (get_elem? cs i ≡ some a)
      × (get_elem? cs (behind n i) ≡ some b)
      × (by_round_robin r now route_id group_id ≡ some (turned r route_id, some a))
      × (by_round_robin (turned r route_id) now route_id group_id
          ≡ some (turned (turned r route_id) route_id, some b))
unfolding by_round_robin
by_round_robin-turns r now route_id group_id l m =
    let cs = accounts_in_group r.db now group_id in
    let n = length cs in
    let same : (route_id == route_id) ≡ true = ground arith in
    let once : (turned r route_id).rr route_id ≡ r.rr route_id + 1 = rw same (omega arith) in
    let (a, p, e) = turn r route_id cs l (omega arith) in
    let (b, q, f) = turn (turned r route_id) route_id cs l (rw once (omega arith)) in
    let place : ((turned r route_id).rr route_id + 1) % n ≡ behind n ((r.rr route_id + 1) % n) =
      ap (λ (k : ℕ). (k + 1) % n) once
      ∙ ap (λ (k : ℕ). k % n) (omega arith)
      ∙ suc-mod_behind (r.rr route_id + 1) n l in
    (a, b, p, ap (get_elem? cs) (sym place) ∙ q, e, f)
