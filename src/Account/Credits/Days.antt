-- ===== src/Account/Credits/Days.antt =====
-- The snapshots of one account on one day.
use claw_proxy_hub_next.Base.{
  ℕ, suc, ◌+◌, ◌==◌, ==_iff, String, eq_refl, Bool, true, false, Option, none, some, some_injective,
  List, [], ◌∷◌, ◌++◌, map, find, length, ◌≡◌, refl, ap, subst, ◌∙◌, ◌≢◌, if◌then◌else◌,
  Option-cases, Bool-cases, inl, inr, arith,
}
use claw_proxy_hub_next.Account.Credits.{
  CreditDaily, Floats, credit_remaining, is_row, first_row, higher, used_of, update_row, observe,
  record_credit_snapshot,
}

module _ {ℓ} {A : Type ℓ} (p : A → Bool) where
  find-append :
      (xs : List A) (x : A) → find p xs ≡ none → p x ≡ true → find p (xs ++ x ∷ []) ≡ some x
  find-append [] x h t = rw t refl
  find-append (y ∷ xs) x h t = elim (Bool-cases (p y)) [
    | inl e ↦
        absurd
          (let q : some y ≡ none = subst (λ b. (if b then some y else find p xs) ≡ none) e h in cc)
    | inr e ↦ rw e (find-append xs x (subst (λ b. (if b then some y else find p xs) ≡ none) e h) t)
  ]

  find-update :
      (g : A → A) (xs : List A) (x : A)
      → ((y : A) → p (g y) ≡ p y)
      → find p xs ≡ some x
      → find p (map (λ y. if p y then g y else y) xs) ≡ some (g x)
  find-update g [] x keeps h = absurd (cc)
  find-update g (y ∷ xs) x keeps h = elim (Bool-cases (p y)) [
    | inl e ↦
        let q : y ≡ x =
          some_injective (subst (λ b. (if b then some y else find p xs) ≡ some x) e h) in
        let k : p (g y) ≡ true = keeps y ∙ e in rw (e, k) (ap (λ z. some (g z)) q)
    | inr e ↦
        rw (e, e)
          (find-update g xs x keeps (subst (λ b. (if b then some y else find p xs) ≡ some x) e h))
  ]

-- The specification: what is left at last, the greatest amount seen, and their distance.
abbrev last_of : ℕ → List ℕ → ℕ
last_of x [] = x
last_of x (y ∷ ys) = last_of y ys

abbrev highest : Floats → ℕ → List ℕ → ℕ
highest f b [] = b
highest f b (x ∷ xs) = highest f (higher f b x) xs

abbrev used_in : Floats → ℕ → List ℕ → ℕ
used_in f x [] = 0
used_in f x (y ∷ ys) = used_of f (highest f x (y ∷ ys)) (last_of y ys)

-- The amounts that the texts have.
abbrev ahead : Option ℕ → List ℕ → List ℕ
ahead none xs = xs
ahead (some x) xs = x ∷ xs

abbrev pub amounts : Floats → List (ℕ × String) → List ℕ
amounts f [] = []
amounts f ((now, text) ∷ rest) = ahead (credit_remaining f text) (amounts f rest)

module _ (f : Floats) (id : ℕ) (day : String) where
  -- The snapshots, each with its instant.
  pub record_all : List (ℕ × String) → List CreditDaily → List CreditDaily
  record_all [] rows = rows
  record_all ((now, text) ∷ rest) rows =
      record_all rest (record_credit_snapshot f now id day text rows)

  abbrev pub row_of : List CreditDaily → Option CreditDaily
  row_of rows = find (is_row id day) rows

  -- A row of the day, with an amount left, the greatest one, the use and the number of snapshots.
  pub HasDay : List CreditDaily → (remaining baseline used samples : ℕ) → Type 0
  HasDay rows remaining baseline used samples =
      (row : CreditDaily) × (row_of rows ≡ some row)
      × (row.remaining ≡ remaining)
      × (row.baseline ≡ baseline)
      × (row.used ≡ used)
      × (row.samples ≡ samples)

  used_after : ℕ → ℕ → List ℕ → ℕ
  used_after b u [] = u
  used_after b u (x ∷ xs) = used_after (higher f b x) (used_of f (higher f b x) x) xs

  used_after_lem :
      (b u x : ℕ) (xs : List ℕ)
      → used_after b u (x ∷ xs) ≡ used_of f (highest f b (x ∷ xs)) (last_of x xs)
  unfolding used_after
  used_after_lem b u x [] = refl
  used_after_lem b u x (y ∷ ys) = used_after_lem (higher f b x) (used_of f (higher f b x) x) y ys

  observe-again :
      (rows : List CreditDaily) (now x q b u k : ℕ)
      → HasDay rows q b u k
      → HasDay (observe f now id day x rows) x (higher f b x) (used_of f (higher f b x) x) (k + 1)
  unfolding HasDay
  observe-again rows now x q b u k (row, found, _, eb, _, ek) =
      let again = find-update (is_row id day) (update_row f now x row) rows row (λ y. refl) found in
      let base : higher f row.baseline x ≡ higher f b x = ap (λ z. higher f z x) eb in
      rw found (
        update_row f now x row row,
        again,
        refl,
        base,
        ap (λ z. used_of f z x) base,
        ap (λ z. z + 1) ek,
      )

  observe-first :
      (rows : List CreditDaily) (now x : ℕ)
      → row_of rows ≡ none
      → HasDay (observe f now id day x rows) x x 0 1
  unfolding HasDay
  observe-first rows now x absent =
      let mine : is_row id day (first_row now id day x) ≡ true =
        rw ((==_iff id id).1 refl) (eq_refl day) in
      rw absent (
        first_row now id day x,
        find-append (is_row id day) rows (first_row now id day x) absent mine,
        refl,
        refl,
        refl,
        refl,
      )

  module _ (real : id ≢ 0) where
    not_zero : (id == 0) ≡ false
    not_zero = elim (Bool-cases (id == 0)) [ inl e ↦ absurd (real ((==_iff id 0).0 e)) | inr e ↦ e ]

    recorded :
        (now x : ℕ) (text : String) (rows : List CreditDaily)
        → credit_remaining f text ≡ some x
        → record_credit_snapshot f now id day text rows ≡ observe f now id day x rows
    unfolding record_credit_snapshot
    recorded now x text rows e = rw e (rw not_zero refl)

    passed_over :
        (now : ℕ) (text : String) (rows : List CreditDaily)
        → credit_remaining f text ≡ none
        → record_credit_snapshot f now id day text rows ≡ rows
    unfolding record_credit_snapshot
    passed_over now text rows e = rw e refl

    later_snapshots :
        (texts : List (ℕ × String)) (rows : List CreditDaily) (q b u k : ℕ)
        → HasDay rows q b u k
        → HasDay
            (record_all texts rows)
            (last_of q (amounts f texts))
            (highest f b (amounts f texts))
            (used_after b u (amounts f texts))
            (k + length (amounts f texts))
    unfolding record_all used_after
    later_snapshots [] rows q b u k h = let count : k + 0 ≡ k = omega arith in rw count h
    later_snapshots ((now, text) ∷ rest) rows q b u k h =
        elim (Option-cases (credit_remaining f text)) [
          | inl e ↦ rw (e, passed_over now text rows e) (later_snapshots rest rows q b u k h)
          | inr (x, e) ↦
              let ih =
                later_snapshots rest (observe f now id day x rows) x (higher f b x)
                  (used_of f (higher f b x) x) (k + 1) (observe-again rows now x q b u k h) in
              let count : (k + 1) + length (amounts f rest) ≡ k + suc (length (amounts f rest)) =
                omega arith in
              rw (e, recorded now x text rows e)
                (subst
                  (λ n.
                    HasDay (record_all rest (observe f now id day x rows))
                      (last_of x (amounts f rest)) (highest f (higher f b x) (amounts f rest))
                      (used_after (higher f b x) (used_of f (higher f b x) x) (amounts f rest)) n)
                  count ih)
        ]

    used_lem : (x : ℕ) (xs : List ℕ) → used_after x 0 xs ≡ used_in f x xs
    unfolding used_after
    used_lem x [] = refl
    used_lem x (y ∷ ys) = used_after_lem x 0 y ys

    -- Of an account's snapshots on a day without a row, the table has a row with the last of the
    -- amounts that the texts have, the greatest of them, the distance of these two, which is 0 after one
    -- amount, and their number.
    pub record_all-HasDay :
        (texts : List (ℕ × String)) (rows : List CreditDaily) (x : ℕ) (xs : List ℕ)
        → row_of rows ≡ none
        → amounts f texts ≡ x ∷ xs
        → HasDay
            (record_all texts rows)
            (last_of x xs)
            (highest f x xs)
            (used_in f x xs)
            (1 + length xs)
    unfolding record_all
    record_all-HasDay [] rows x xs absent h = absurd (cc)
    record_all-HasDay ((now, text) ∷ rest) rows x xs absent h =
        elim (Option-cases (credit_remaining f text)) [
          | inl e ↦
              let h' : amounts f rest ≡ x ∷ xs =
                subst (λ o. ahead o (amounts f rest) ≡ x ∷ xs) e h in
              rw (passed_over now text rows e) (record_all-HasDay rest rows x xs absent h')
          | inr (y, e) ↦
              let h' : y ∷ amounts f rest ≡ x ∷ xs =
                subst (λ o. ahead o (amounts f rest) ≡ x ∷ xs) e h in
              let head : y ≡ x = cc in
              let tail : amounts f rest ≡ xs = cc in
              let first = observe-first rows now x absent in
              let all = later_snapshots rest (observe f now id day x rows) x x 0 1 first in
              rw (recorded now y text rows e) (rw head (rw (← used_lem x xs) (rw (← tail) all)))
        ]
