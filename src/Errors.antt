-- ===== src/Errors.antt =====
-- error.go and retry.go: the errors that the program tells apart, and what a consumer does about one.
-- An error is the tree that errors.New and fmt.Errorf build; errors.Is walks it.
use eventbus.Base.{
  ℕ, ◌≡◌, refl, ◌↔◌, Bool, true, false, ◌||◌, Option, none, some, arith, ◌==◌, Text, if◌then◌else◌,
  Bool-cases, inl, inr,
}

pub data Error : Type 0 where
  -- errors.New: the variable that holds it is its identity.
  sentinel : ℕ → Error
  -- fmt.Errorf with no %w.
  plain : Text → Error
  -- fmt.Errorf with one %w, and with two.
  wrap : Text → Error → Error
  wrap_two : Error → Error → Error

abbrev pub err_channel_full : Error
err_channel_full = sentinel 0

abbrev pub unrecoverable_id : ℕ
unrecoverable_id = 1

abbrev pub err_unrecoverable : Error
err_unrecoverable = sentinel unrecoverable_id

abbrev pub context_canceled : Error
context_canceled = sentinel 2

-- errors.Is against a sentinel.
pub is_error : Error → ℕ → Bool
is_error (sentinel m) n = m == n
is_error (plain t) n = false
is_error (wrap t e) n = is_error e n
is_error (wrap_two d e) n = is_error d n || is_error e n

-- Unrecoverable; `none` is nil.
pub unrecoverable : Option Error → Error
unrecoverable none = err_unrecoverable
unrecoverable (some e) = wrap_two err_unrecoverable e

-- IsUnrecoverable.
pub is_unrecoverable : Option Error → Bool
unfolding is_error
is_unrecoverable none = false
is_unrecoverable (some e) = is_error e unrecoverable_id

-- RetryDecision is an int: the three constants, and any other value.
pub data RetryDecision : Type 0 where
  retry dead_letter drop : RetryDecision
  other : ℕ → RetryDecision

-- DefaultRetryClassifier; the context and the event are not read.
unfoldable pub default_retry_classifier : Error → RetryDecision
unfolding is_error
default_retry_classifier e = if is_error e unrecoverable_id then dead_letter else retry

-- Where the sentinel stands in an error's tree.
pub data Carries (n : ℕ) : Error → Type 0 where
  itself : {m : ℕ} → m ≡ n → Carries n (sentinel m)
  under : {t : Text} {e : Error} → Carries n e → Carries n (wrap t e)
  left : {d e : Error} → Carries n d → Carries n (wrap_two d e)
  right : {d e : Error} → Carries n e → Carries n (wrap_two d e)

Carries-of_is : (n : ℕ) (e : Error) → is_error e n ≡ true → Carries n e
unfolding is_error
Carries-of_is n (sentinel m) h = itself (ground arith)
Carries-of_is n (plain t) h = absurd (ground arith)
Carries-of_is n (wrap t e) h = under (Carries-of_is n e h)
Carries-of_is n (wrap_two d e) h = elim (Bool-cases (is_error d n)) [
  | inl p ↦ left (Carries-of_is n d p)
  | inr q ↦ right (Carries-of_is n e (ground arith))
]

is_of-Carries : (n : ℕ) {e : Error} → Carries n e → is_error e n ≡ true
unfolding is_error
is_of-Carries n (itself p) = ground arith
is_of-Carries n (under c) = is_of-Carries n c
is_of-Carries n (left c) = ground (arith, is_of-Carries n c)
is_of-Carries n (right {d = d} c) = elim (Bool-cases (is_error d n)) [
  | inl p ↦ ground arith
  | inr q ↦ ground (arith, is_of-Carries n c)
]

-- errors.Is finds a sentinel exactly where it stands in the tree.
pub is_error-Carries : (n : ℕ) (e : Error) → (is_error e n ≡ true) ↔ Carries n e
is_error-Carries n e = (Carries-of_is n e, is_of-Carries n)

-- The default classifier answers with the dead letter exactly for an error that carries
-- ErrUnrecoverable, at any depth, and with a retry exactly for the others; so what `unrecoverable`
-- returns, for nil or for any error, and whatever is wrapped round it once more, is never retried.
pub default_retry_classifier_lem :
    (e : Error)
    → ((default_retry_classifier e ≡ dead_letter) ↔ Carries unrecoverable_id e)
      × ((default_retry_classifier e ≡ retry) ↔ (¬ Carries unrecoverable_id e))
      × ((o : Option Error) (t : Text)
          → default_retry_classifier (wrap t (unrecoverable o)) ≡ dead_letter)
unfolding default_retry_classifier unrecoverable
default_retry_classifier_lem e = (
  (λ h. Carries-of_is _ e (ground arith), λ c. ground (arith, is_of-Carries _ c)),
  (
    λ h c. ground (arith, is_of-Carries _ c),
    λ h. elim (Bool-cases (is_error e unrecoverable_id)) [
      | inl p ↦ absurd (h (Carries-of_is _ e p))
      | inr q ↦ ground arith
    ],
  ),
  λ o t. wrapped o t,
)
  where
    wrapped :
        (o : Option Error) (t : Text)
        → default_retry_classifier (wrap t (unrecoverable o)) ≡ dead_letter
    wrapped none t = refl
    wrapped (some d) t = refl
