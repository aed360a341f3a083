-- ===== src/Task/Cron/Next.antt =====
-- `nextCron` gives the first minute that matches.
use claw_proxy_hub_next.Base.{
  ℕ, zero, suc, ◌+◌, ◌*◌, ◌/◌, ◌%◌, ◌≤◌, ◌<◌, ltb, ltb→lt, String, true, false, Option, none, some,
  ◌≡◌, if◌then◌else◌, chosen, arith, ◌⊎◌, inl, inr,
}
use claw_proxy_hub_next.Task.Cron.{
  CronFields, Civil, cron_match, one_minute, minutes_ahead, next_loop, next_cron, parse_cron_expr,
}

module _ (civil : ℕ → Civil) (f : CronFields) (now : ℕ) where
  -- No full minute behind `now` and before `t` matches.
  abbrev pub NoneBefore : ℕ → Type 0
  NoneBefore t = (u : ℕ) → now < u → u < t → u % one_minute ≡ 0 → cron_match f (civil u) ≡ false

  -- The first full minute behind `now` that matches, or that there is none before the limit.
  unfoldable pub IsNext : ℕ → Option ℕ → Type 0
  IsNext limit none = NoneBefore limit
  IsNext limit (some t) =
      (now < t)
      × (t < limit)
      × (t % one_minute ≡ 0)
      × (cron_match f (civil t) ≡ true)
      × NoneBefore t

  not_before :
      (t : ℕ)
      → t % one_minute ≡ 0
      → NoneBefore t
      → cron_match f (civil t) ≡ false
      → NoneBefore (t + one_minute)
  not_before t m h e u l k z =
      let c : (u < t) ⊎ (u ≡ t) = ground arith in elim c [ inl b ↦ h u l b z | inr b ↦ rw b e ]

  shorter : (t limit : ℕ) → limit ≤ t → NoneBefore t → NoneBefore limit
  shorter t limit l h u a b z = h u a (omega arith) z

  next_loop-IsNext :
      (fuel t limit : ℕ)
      → now < t
      → t % one_minute ≡ 0
      → NoneBefore t
      → limit ≤ t + fuel * one_minute
      → IsNext limit (next_loop fuel civil f t limit)
  unfolding next_loop IsNext
  next_loop-IsNext zero t limit a m h l = shorter t limit (omega arith) h
  next_loop-IsNext (suc fuel) t limit a m h l =
      let rest = next_loop fuel civil f (t + one_minute) limit in
      chosen (IsNext limit) (ltb t limit) (if cron_match f (civil t) then some t else rest) none
        (λ b.
          chosen (IsNext limit) (cron_match f (civil t)) (some t) rest
            (λ e. (a, ltb→lt t limit b, m, e, h))
            (λ e.
              next_loop-IsNext fuel (t + one_minute) limit (omega arith) (omega arith)
                (not_before t m h e) (omega arith)))
        (λ b. shorter t limit (ground arith) h)

-- For an expression that parses, the result is the first full minute behind `now` that matches it, and
-- none means that no minute of the next 366 days does.
pub next_cron-IsNext :
    (civil : ℕ → Civil) (expr : String) (f : CronFields) (now : ℕ)
    → parse_cron_expr expr ≡ some f
    → IsNext civil f now (now + minutes_ahead * one_minute) (next_cron civil expr now)
unfolding next_cron
next_cron-IsNext civil expr f now e =
    let first = now / one_minute * one_minute + one_minute in
    rw e (
      next_loop-IsNext civil f now minutes_ahead first (now + minutes_ahead * one_minute)
        (omega arith) (omega arith) (λ u a b z. absurd (omega arith)) (omega arith))
