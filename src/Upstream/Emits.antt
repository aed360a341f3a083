-- ===== src/Upstream/Emits.antt =====
-- A parser's step: its state after it, with the events that it hands to `emit`, in order.
use claw_proxy_hub_next.Base.{
  ℕ, ◌+◌, ◌≡◌, refl, ap, sym, List, [], ◌∷◌, ◌++◌, arith, All, String, str_eq, false, trim_space,
  has_prefix, trim_prefix, Option, none, some, if◌then◌else◌,
}
use mathlib.Core.List.{append_assoc}
use claw_proxy_hub_next.Gateway.Envelope.{
  StreamEvent, message_start, content_delta, tool_call_delta, message_finish, task_failed, not_set,
}

-- The payload of a `data:` line; `Feed` ignores every other line.
unfoldable pub data_of : String → Option String
data_of line =
    let line = trim_space line in
    let payload = trim_space (trim_prefix line "data:") in
    if has_prefix line "data:" then some payload else none

module _ {ℓ} {P : Type ℓ} where
  abbrev pub and_then : P × List StreamEvent → (P → P × List StreamEvent) → P × List StreamEvent
  and_then (p, evs) f = let (q, more) = f p in (q, evs ++ more)

  -- A loop over `xs`.
  abbrev pub each {κ} :
      {A : Type κ} → (P → A → P × List StreamEvent) → P → List A → P × List StreamEvent
  each f p [] = (p, [])
  each f p (x ∷ xs) = and_then (f p x) (λ q. each f q xs)

  pub each-append {κ} :
      {A : Type κ} (f : P → A → P × List StreamEvent) (p : P) (xs ys : List A)
      → each f p (xs ++ ys) ≡ and_then (each f p xs) (λ q. each f q ys)
  each-append f p [] ys = refl
  each-append f p (x ∷ xs) ys =
      let (q, evs) = f p x in
      let rest = each f (each f q xs).0 ys in
      rw (each-append f q xs ys) (
        ap (λ (out : List StreamEvent). (rest.0, out))
          (sym (append_assoc evs (each f q xs).1 rest.1)))

-- How often a kind of event is among the events, when `weight` is 1 for the kind and 0 for others.
module _ (weight : StreamEvent → ℕ) where
  abbrev pub total : List StreamEvent → ℕ
  total [] = 0
  total (ev ∷ evs) = weight ev + total evs

  pub total-append : (xs ys : List StreamEvent) → total (xs ++ ys) ≡ total xs + total ys
  total-append [] ys = omega arith
  total-append (x ∷ xs) ys = omega (arith, total-append xs ys)

  -- A step counts the events in the state.
  module _ {ℓ} {P : Type ℓ} (sent : P → ℕ) where
    abbrev pub Counts : P → P × List StreamEvent → Type 0
    Counts p r = sent r.0 ≡ sent p + total r.1

    pub and_then-Counts :
        (p : P) (r : P × List StreamEvent) (f : P → P × List StreamEvent)
        → Counts p r
        → ((q : P) → Counts q (f q))
        → Counts p (and_then r f)
    and_then-Counts p r f h k = omega (arith, total-append r.1 (f r.0).1, h, k r.0)

    pub each-Counts {κ} :
        {A : Type κ} (f : P → A → P × List StreamEvent)
        → ((q : P) (x : A) → Counts q (f q x))
        → (p : P) (xs : List A) → Counts p (each f p xs)
    each-Counts f h p [] = omega arith
    each-Counts f h p (x ∷ xs) =
        and_then-Counts p (f p x) (λ q. each f q xs) (h p x) (λ q. each-Counts f h q xs)

-- The events that begin a message, and those that end it: well, or with an error.
abbrev pub is_start : StreamEvent → ℕ
is_start (message_start model) = 1
is_start (content_delta text reasoning) = 0
is_start (tool_call_delta ev) = 0
is_start (message_finish reason u) = 0
is_start (task_failed e detail) = 0
is_start not_set = 0

abbrev pub is_finish : StreamEvent → ℕ
is_finish (message_start model) = 0
is_finish (content_delta text reasoning) = 0
is_finish (tool_call_delta ev) = 0
is_finish (message_finish reason u) = 1
is_finish (task_failed e detail) = 0
is_finish not_set = 0

abbrev pub is_end : StreamEvent → ℕ
is_end (message_start model) = 0
is_end (content_delta text reasoning) = 0
is_end (tool_call_delta ev) = 0
is_end (message_finish reason u) = 1
is_end (task_failed e detail) = 1
is_end not_set = 0

-- Every call that an event speaks of has an identifier.
abbrev pub HasId : StreamEvent → Type 0
HasId (message_start model) = Unit
HasId (content_delta text reasoning) = Unit
HasId (tool_call_delta ev) = str_eq ev.id "" ≡ false
HasId (message_finish reason u) = Unit
HasId (task_failed e detail) = Unit
HasId not_set = Unit

pub All-append {ℓ κ} :
    {A : Type ℓ} (Q : A → Type κ) (xs ys : List A) → All Q xs → All Q ys → All Q (xs ++ ys)
All-append Q [] ys h k = k
All-append Q (x ∷ xs) ys h k = (h.0, All-append Q xs ys h.1 k)

pub each-All {ℓ κ} :
    {P : Type ℓ} {A : Type κ} (f : P → A → P × List StreamEvent)
    → ((q : P) (x : A) → All HasId (f q x).1)
    → (p : P) (xs : List A) → All HasId (each f p xs).1
each-All f h p [] = tt
each-All f h p (x ∷ xs) =
    All-append HasId (f p x).1 (each f (f p x).0 xs).1 (h p x) (each-All f h (f p x).0 xs)
