-- ===== src/Router/Resolve/Usable.antt =====
-- An account that a request is resolved to can be used.
use claw_proxy_hub_next.Base.{
  ℕ, ◌==◌, String, str_eq, Bool, true, ◌&&◌, ◌||◌, and_left, and_right, Option, none, some, List,
  [], ◌∷◌, length, get_elem?, ◌≡◌, refl, subst, if◌then◌else◌, chosen, ◌-◌, ◌%◌, negative64,
  int64_mod, exists, first, ◌∈◌, here, there, add64, map_option, select_sound, get_elem?_sound,
}
use claw_proxy_hub_next.Data.{Account}
use claw_proxy_hub_next.Router.Db.{Db, active_where, in_group, accounts_in_group}
use claw_proxy_hub_next.Router.Picking.{
  Credits, best_from, best_of, draw, insert_by, sort_stable, by_random, by_least_used,
  by_expiring_first, rotate, expires_first, last_used_asc,
}
use claw_proxy_hub_next.Router.Resolve.{Env, Draw, rotate_from, by_round_robin, pick_account}
use claw_proxy_hub_next.Router.State.{Router}

-- An active account of the group.
unfoldable pub IsUsable : Db → ℕ → ℕ → Account → Type 0
IsUsable db now group_id a =
    (a ∈ db.accounts) × (active_where now a ≡ true) × (in_group db a.id group_id ≡ true)

pub accounts_in_group-IsUsable :
    (db : Db) (now group_id : ℕ) (a : Account)
    → a ∈ accounts_in_group db now group_id
    → IsUsable db now group_id a
unfolding accounts_in_group IsUsable
accounts_in_group-IsUsable db now group_id a h =
    let (m, t) =
      select_sound (λ x. active_where now x && in_group db x.id group_id) db.accounts a h in
    (
      m,
      and_left (active_where now a) (in_group db a.id group_id) t,
      and_right (active_where now a) (in_group db a.id group_id) t,
    )

best_from_sound :
    (less : Account → Account → Bool) (b : Account) (as' : List Account)
    → best_from less b as' ∈ (b ∷ as')
best_from_sound less b [] = here refl
best_from_sound less b (a ∷ rest) =
    chosen (λ x. best_from less x rest ∈ (b ∷ a ∷ rest)) (less a b) a b
      (λ _. there (best_from_sound less a rest)) (λ _. skip (best_from_sound less b rest))
  where
    skip : {x b a : Account} {rest : List Account} → x ∈ (b ∷ rest) → x ∈ (b ∷ a ∷ rest)
    skip (here e) = here e
    skip (there h) = there (there h)

pub best_of_sound :
    (less : Account → Account → Bool) (as' : List Account) (a : Account)
    → best_of less as' ≡ some a
    → a ∈ as'
best_of_sound less [] a e = absurd (cc)
best_of_sound less (x ∷ rest) a e =
    let q : best_from less x rest ≡ a = cc in
    subst (λ z. z ∈ (x ∷ rest)) q (best_from_sound less x rest)

swap_first : {x a c : Account} {cs : List Account} → a ∈ (x ∷ cs) → a ∈ (x ∷ c ∷ cs)
swap_first (here e) = here e
swap_first (there h) = there (there h)

behind_first :
    {x a c : Account} {cs ds : List Account}
    → (a ∈ ds → a ∈ (x ∷ cs))
    → a ∈ (c ∷ ds)
    → a ∈ (x ∷ c ∷ cs)
behind_first f (here e) = there (here e)
behind_first f (there h) = swap_first (f h)

insert_by_sound :
    (less : Account → Account → Bool) (x a : Account) (cs : List Account)
    → a ∈ insert_by less x cs
    → a ∈ (x ∷ cs)
insert_by_sound less x a [] h = h
insert_by_sound less x a (c ∷ cs) h =
    chosen (λ (l : List Account). a ∈ l → a ∈ (x ∷ c ∷ cs)) (less c x) (c ∷ insert_by less x cs)
      (x ∷ c ∷ cs) (λ _ m. behind_first (insert_by_sound less x a cs) m) (λ _ m. m) h

pub sort_stable_sound :
    (less : Account → Account → Bool) (cs : List Account) (a : Account)
    → a ∈ sort_stable less cs
    → a ∈ cs
sort_stable_sound less [] a h = h
sort_stable_sound less (c ∷ cs) a h =
    cons (sort_stable_sound less cs a) (insert_by_sound less c a (sort_stable less cs) h)
  where
    cons : {x y : Account} {cs ds : List Account} → (x ∈ cs → x ∈ ds) → x ∈ (y ∷ cs) → x ∈ (y ∷ ds)
    cons f (here e) = here e
    cons f (there m) = there (f m)

first_sound : (cs : List Account) (a : Account) → first cs ≡ some a → a ∈ cs
first_sound [] a e = absurd (cc)
first_sound (c ∷ cs) a e = here (cc)

draw_sound : (intn : ℕ → ℕ) (cs : List Account) (a : Account) → draw intn cs ≡ some a → a ∈ cs
draw_sound intn [] a e = absurd (cc)
draw_sound intn (c ∷ cs) a e = get_elem?_sound (c ∷ cs) (intn (length (c ∷ cs))) a e

rotate_sound : (idx : ℕ) (cs : List Account) (a : Account) → rotate idx cs ≡ some a → a ∈ cs
unfolding rotate
rotate_sound idx cs a =
    chosen (λ (o : Option Account). o ≡ some a → a ∈ cs) (negative64 idx)
      (if (int64_mod - idx) % length cs == 0 then get_elem? cs 0 else none)
      (get_elem? cs (idx % length cs))
      (λ _.
        chosen (λ (o : Option Account). o ≡ some a → a ∈ cs) ((int64_mod - idx) % length cs == 0)
          (get_elem? cs 0) none (λ _ e. get_elem?_sound cs 0 a e) (λ _ e. absurd (cc)))
      (λ _ e. get_elem?_sound cs (idx % length cs) a e)

-- What a choice has to show: an account that it gives is usable, and the tables stay.
unfoldable pub Picks : Db → ℕ → ℕ → Option (Router × Option Account) → Type 0
Picks db now group_id none = Unit
Picks db now group_id (some (r, none)) = r.db ≡ db
Picks db now group_id (some (r, some a)) = (r.db ≡ db) × IsUsable db now group_id a

Picks-some :
    (r : Router) (now group_id : ℕ) (o : Option Account)
    → ((a : Account) → o ≡ some a → a ∈ accounts_in_group r.db now group_id)
    → Picks r.db now group_id (some (r, o))
unfolding Picks
Picks-some r now group_id none h = refl
Picks-some r now group_id (some a) h =
    (refl, accounts_in_group-IsUsable r.db now group_id a (h a refl))

rotate_from-Picks :
    (r : Router) (now route_id group_id : ℕ) (cs : List Account)
    → ((a : Account) → a ∈ cs → a ∈ accounts_in_group r.db now group_id)
    → Picks r.db now group_id (rotate_from r route_id cs)
unfolding rotate_from Picks
rotate_from-Picks r now route_id group_id [] h = refl
rotate_from-Picks r now route_id group_id (c ∷ cs) h =
    let idx = add64 (r.rr route_id) 1 in turned idx (rotate idx (c ∷ cs)) refl
  where
    turned :
        (idx : ℕ) (o : Option Account)
        → rotate idx (c ∷ cs) ≡ o
        → Picks r.db now group_id (
            map_option
              (λ picked.
                (record r { rr = λ i. if i == route_id then idx else r.rr i }, some picked))
              o)
    turned idx none e = tt
    turned idx (some a) e =
        (refl, accounts_in_group-IsUsable r.db now group_id a (h a (rotate_sound idx (c ∷ cs) a e)))

by_least_used_sound :
    (db : Db) (now group_id : ℕ) (a : Account)
    → by_least_used db now group_id ≡ some a
    → a ∈ accounts_in_group db now group_id
unfolding by_least_used
by_least_used_sound db now group_id a e =
    best_of_sound (λ a b. last_used_asc a.last_used_at b.last_used_at)
      (accounts_in_group db now group_id) a e

by_expiring_first_sound :
    (c : Credits) (db : Db) (now group_id : ℕ) (a : Account)
    → by_expiring_first c db now group_id ≡ some a
    → a ∈ accounts_in_group db now group_id
unfolding by_expiring_first
by_expiring_first_sound c db now group_id a =
    let accts = accounts_in_group db now group_id in
    chosen (λ (o : Option Account). o ≡ some a → a ∈ accts)
      (exists (λ x. c.is_some (c.expiring_of x.credits_json)) accts)
      (first (sort_stable (expires_first c) accts)) (by_least_used db now group_id)
      (λ _ e.
        sort_stable_sound (expires_first c) accts a
          (first_sound (sort_stable (expires_first c) accts) a e))
      (λ _ e. by_least_used_sound db now group_id a e)

-- Every strategy gives an active account of the group, or none, and changes no table.
pub pick_account-Picks :
    (env : Env) (d : Draw) (r : Router) (strategy : String) (route_id group_id : ℕ)
    → Picks r.db d.now group_id (pick_account env d r strategy route_id group_id)
unfolding pick_account by_random by_round_robin
pick_account-Picks env d r strategy route_id group_id =
    let P : Option (Router × Option Account) → Type 0 = Picks r.db d.now group_id in
    let random = some (r, by_random r.db d.intn_account d.now group_id) in
    let least = some (r, by_least_used r.db d.now group_id) in
    let expiring = some (r, by_expiring_first env.credits r.db d.now group_id) in
    let turn = by_round_robin r d.now route_id group_id in
    let last =
      (if str_eq strategy "expiring" || str_eq strategy "sticky_expiring"
        then expiring
        else turn) in
    let second = (if str_eq strategy "least_used" then least else last) in
    chosen P (str_eq strategy "random") random second
      (λ _.
        Picks-some r d.now group_id (by_random r.db d.intn_account d.now group_id)
          (λ a e. draw_sound d.intn_account (accounts_in_group r.db d.now group_id) a e))
      (λ _.
        chosen P (str_eq strategy "least_used") least last
          (λ _.
            Picks-some r d.now group_id (by_least_used r.db d.now group_id)
              (by_least_used_sound r.db d.now group_id))
          (λ _.
            chosen P (str_eq strategy "expiring" || str_eq strategy "sticky_expiring") expiring turn
              (λ _.
                Picks-some r d.now group_id (by_expiring_first env.credits r.db d.now group_id)
                  (by_expiring_first_sound env.credits r.db d.now group_id))
              (λ _.
                rotate_from-Picks r d.now route_id group_id (accounts_in_group r.db d.now group_id)
                  (λ a m. m))))
