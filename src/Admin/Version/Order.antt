-- ===== src/Admin/Version/Order.antt =====
-- How versions compare.
use claw_proxy_hub_next.Base.{
  ℕ, zero, suc, ◌==◌, String, List, [], ◌∷◌, if◌then◌else◌, ◌≡◌, refl, sym, ◌∙◌, map, Option, none,
  some, ◌↔◌, ◌<◌, ◌≤◌, ◌⊎◌, inl, inr, int64_max, arith,
}
use claw_proxy_hub_next.Admin.Version.{
  minus_one, decide, compare_parts, compare_semver, split_semver, clamp, digits_of, atoi_value,
}

abbrev pub flipped : ℕ → ℕ
flipped n = if n == 1 then minus_one else if n == minus_one then 1 else n

flip_decide : (x y r : ℕ) → decide y x (flipped r) ≡ flipped (decide x y r)
flip_decide x y r = ground arith

flip_parts : (xs ys : List ℕ) → compare_parts ys xs ≡ flipped (compare_parts xs ys)
unfolding compare_parts
flip_parts [] [] = refl
flip_parts (x ∷ xs) [] = rw (flip_parts xs []) (flip_decide x 0 (compare_parts xs []))
flip_parts [] (y ∷ ys) = rw (flip_parts [] ys) (flip_decide 0 y (compare_parts [] ys))
flip_parts (x ∷ xs) (y ∷ ys) = rw (flip_parts xs ys) (flip_decide x y (compare_parts xs ys))

-- The number at a place, which is 0 behind the last.
abbrev pub part : List ℕ → ℕ → ℕ
part [] i = 0
part (x ∷ xs) zero = x
part (x ∷ xs) (suc i) = part xs i

decide_zero : (x y r : ℕ) → (decide x y r ≡ 0) ↔ ((x ≡ y) × (r ≡ 0))
decide_zero x y r = ground arith

abbrev SameParts : List ℕ → List ℕ → Type 0
SameParts xs ys = (i : ℕ) → part xs i ≡ part ys i

zero_parts : (xs ys : List ℕ) → compare_parts xs ys ≡ 0 → SameParts xs ys
unfolding compare_parts
zero_parts [] [] h i = refl
zero_parts (x ∷ xs) [] h zero = ((decide_zero x 0 (compare_parts xs [])).0 h).0
zero_parts (x ∷ xs) [] h (suc i) =
    zero_parts xs [] ((decide_zero x 0 (compare_parts xs [])).0 h).1 i
zero_parts [] (y ∷ ys) h zero = ((decide_zero 0 y (compare_parts [] ys)).0 h).0
zero_parts [] (y ∷ ys) h (suc i) =
    zero_parts [] ys ((decide_zero 0 y (compare_parts [] ys)).0 h).1 i
zero_parts (x ∷ xs) (y ∷ ys) h zero = ((decide_zero x y (compare_parts xs ys)).0 h).0
zero_parts (x ∷ xs) (y ∷ ys) h (suc i) =
    zero_parts xs ys ((decide_zero x y (compare_parts xs ys)).0 h).1 i

parts_zero : (xs ys : List ℕ) → SameParts xs ys → compare_parts xs ys ≡ 0
unfolding compare_parts
parts_zero [] [] h = refl
parts_zero (x ∷ xs) [] h =
    (decide_zero x 0 (compare_parts xs [])).1 (h 0, parts_zero xs [] (λ i. h (suc i)))
parts_zero [] (y ∷ ys) h =
    (decide_zero 0 y (compare_parts [] ys)).1 (h 0, parts_zero [] ys (λ i. h (suc i)))
parts_zero (x ∷ xs) (y ∷ ys) h =
    (decide_zero x y (compare_parts xs ys)).1 (h 0, parts_zero xs ys (λ i. h (suc i)))

-- The first place where the numbers differ, and the greater number is of the first version.
pub IsNewer : List ℕ → List ℕ → Type 0
IsNewer xs ys = (i : ℕ) × ((j : ℕ) → j < i → part xs j ≡ part ys j) × (part ys i < part xs i)

-- Every number is an `int` that is not negative.
abbrev Positive : List ℕ → Type 0
Positive xs = (i : ℕ) → part xs i ≤ int64_max

decide_one :
    (x y r : ℕ)
    → x ≤ int64_max
    → y ≤ int64_max
    → (decide x y r ≡ 1) ↔ ((y < x) ⊎ ((x ≡ y) × (r ≡ 1)))
decide_one x y r h k = ground (arith, h, k)

abbrev behind : List ℕ → List ℕ
behind [] = []
behind (x ∷ xs) = xs

part-behind : (xs : List ℕ) (i : ℕ) → part (behind xs) i ≡ part xs (suc i)
part-behind [] i = refl
part-behind (x ∷ xs) i = refl

Positive-behind : (xs : List ℕ) → Positive xs → Positive (behind xs)
Positive-behind xs h i = rw (part-behind xs i) (h (suc i))

-- The newer version by the first place, or by the places behind it.
IsNewer-step :
    (xs ys : List ℕ)
    → IsNewer xs ys
      ↔ ((part ys 0 < part xs 0) ⊎ ((part xs 0 ≡ part ys 0) × IsNewer (behind xs) (behind ys)))
unfolding IsNewer
IsNewer-step xs ys = (split, join)
  where
    split :
        IsNewer xs ys
        → (part ys 0 < part xs 0) ⊎ ((part xs 0 ≡ part ys 0) × IsNewer (behind xs) (behind ys))
    split (zero, same, more) = inl more
    split (suc i, same, more) = inr (
      same 0 (omega arith),
      (
        i,
        (λ j l. part-behind xs j ∙ same (suc j) (omega (arith, l)) ∙ sym (part-behind ys j)),
        rw (part-behind xs i, part-behind ys i) more,
      ),
    )

    join :
        (part ys 0 < part xs 0) ⊎ ((part xs 0 ≡ part ys 0) × IsNewer (behind xs) (behind ys))
        → IsNewer xs ys
    join (inl more) = (0, (λ j l. absurd (omega (arith, l))), more)
    join (inr (first, (i, same, more))) =
        (suc i, places, rw (← part-behind xs i, ← part-behind ys i) more)
      where
        places : (j : ℕ) → j < suc i → part xs j ≡ part ys j
        places zero l = first
        places (suc j) l = sym (part-behind xs j) ∙ same j (omega (arith, l)) ∙ part-behind ys j

-- A round of the loop, from the round for the places behind.
via :
    (xs ys : List ℕ) (r : ℕ)
    → part xs 0 ≤ int64_max
    → part ys 0 ≤ int64_max
    → (r ≡ 1) ↔ IsNewer (behind xs) (behind ys)
    → (decide (part xs 0) (part ys 0) r ≡ 1) ↔ IsNewer xs ys
via xs ys r p q rest =
    let one = decide_one (part xs 0) (part ys 0) r p q in
    let step = IsNewer-step xs ys in
    (
      (λ h. step.1 (elim (one.0 h) [ inl l ↦ inl l | inr k ↦ inr (k.0, rest.0 k.1) ])),
      (λ n. one.1 (elim (step.0 n) [ inl l ↦ inl l | inr k ↦ inr (k.0, rest.1 k.1) ])),
    )

one_parts : (xs ys : List ℕ) → Positive xs → Positive ys → (compare_parts xs ys ≡ 1) ↔ IsNewer xs ys
unfolding compare_parts IsNewer
one_parts [] [] p q = ((λ h. absurd (cc)), (λ n. absurd (let l = n.2 in omega (arith, l))))
one_parts (x ∷ xs) [] p q =
    via (x ∷ xs) [] (compare_parts xs []) (p 0) (q 0) (one_parts xs [] (λ i. p (suc i)) q)
one_parts [] (y ∷ ys) p q =
    via [] (y ∷ ys) (compare_parts [] ys) (p 0) (q 0) (one_parts [] ys p (λ i. q (suc i)))
one_parts (x ∷ xs) (y ∷ ys) p q =
    via (x ∷ xs) (y ∷ ys) (compare_parts xs ys) (p 0) (q 0)
      (one_parts xs ys (λ i. p (suc i)) (λ i. q (suc i)))

mapped-Positive :
    (f : String → ℕ) (ss : List String) → ((t : String) → f t ≤ int64_max) → Positive (map f ss)
mapped-Positive f [] h i = omega arith
mapped-Positive f (t ∷ ss) h zero = h t
mapped-Positive f (t ∷ ss) h (suc i) = mapped-Positive f ss h i

clamp_le : (o : Option ℕ) → clamp o ≤ int64_max
clamp_le none = omega arith
clamp_le (some n) = ground arith

split_semver-Positive : (s : String) → Positive (split_semver s)
unfolding split_semver atoi_value
split_semver-Positive s = mapped-Positive atoi_value _ (λ t. clamp_le (digits_of t))

-- Versions compare as 0 exactly if their numbers agree at every place, where a missing number is 0;
-- as 1 exactly if the first has the greater number at the first place where they differ; and the
-- other way round as the opposite.
pub compare_semver_lem :
    (a b : String)
    → ((compare_semver a b ≡ 0) ↔ ((i : ℕ) → part (split_semver a) i ≡ part (split_semver b) i))
      × ((compare_semver a b ≡ 1) ↔ IsNewer (split_semver a) (split_semver b))
      × (compare_semver b a ≡ flipped (compare_semver a b))
unfolding compare_semver
compare_semver_lem a b =
    let xs = split_semver a in
    let ys = split_semver b in
    (
      (zero_parts xs ys, parts_zero xs ys),
      one_parts xs ys (split_semver-Positive a) (split_semver-Positive b),
      flip_parts xs ys,
    )
