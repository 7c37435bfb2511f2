-- ===== src/Billing/Grace.antt =====
-- The days of grace of an account whose payment failed.
use rubrica_back.Base.{◌+◌, ◌≡◌, refl, false, some, List, [], ◌∷◌, arith, ltb}
use rubrica_back.Store.{Instant, days, past_due, Account}
use rubrica_back.Billing.Product.{Settings}
use rubrica_back.Billing.Access.{is_past_due, paid_access_enabled}
use rubrica_back.Billing.Effects.{after_failure, grace_end}

module _ (settings : Settings) where
  -- Failures reported at the given instants, the first of the list first.
  unfoldable pub after_failures : List Instant → Account → Account
  after_failures [] a = a
  after_failures (now ∷ later) a = after_failures later (after_failure settings now a)

  settled_failure :
      (later : List Instant) (a : Account) (g : Instant)
      → a.status ≡ past_due
      → a.grace_period_ends_at ≡ some g
      → after_failures later a ≡ a
  unfolding after_failures after_failure
  settled_failure [] a g st e = refl
  settled_failure (now ∷ later) a g st e = ground (arith, settled_failure later a g st e)

  -- Failed payments never extend the days of grace: after a first failure, further failures at any
  -- later instants change nothing, and a paying account keeps its access exactly until its days of
  -- grace, counted from the first failure, are over.
  pub after_failures_grace :
      (first now : Instant) (later : List Instant) (a : Account)
      → is_past_due a.status ≡ false
      → (after_failures (first ∷ later) a ≡ after_failure settings first a)
        × (paid_access_enabled now (after_failures (first ∷ later) a)
            ≡ ltb now (first + days settings.grace_period_days))
  unfolding after_failures after_failure paid_access_enabled
  after_failures_grace first now later a fresh =
      let b = after_failure settings first a in
      let settled : after_failures later b ≡ b =
        settled_failure later b (grace_end settings first) (ground arith) (ground arith) in
      (settled, ground (arith, settled))
