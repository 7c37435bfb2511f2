-- ===== src/Billing/Usage.antt =====
-- The usage period of an account, and that each new cycle resets the count of files once.
use rubrica_back.Base.{ℕ, ◌≤◌, ◌<◌, ◌≡◌, Bool, true, ◌⊎◌, Option, none, some, arith}
use rubrica_back.Store.{Instant, Account}
use rubrica_back.Billing.Account.{sync_usage_period}

-- The period of `b` starts no earlier than the one of `a`.
abbrev pub StartsNoEarlier : Option Instant → Option Instant → Type 0
StartsNoEarlier none _ = Unit
StartsNoEarlier (some a) none = ⊥
StartsNoEarlier (some a) (some b) = a ≤ b

-- The instant is there and later than the current start.
abbrev pub StartsLater : Option Instant → Option Instant → Type 0
StartsLater (some current) (some start) = current < start
StartsLater _ _ = ⊥

module _ (start end : Option Instant) (reset : Bool) (a : Account) where
  -- The start of the usage period never goes back or away, the count of files is kept or reset to 0,
  -- and it is reset only by a renewal whose period starts later than the current one.
  pub sync_usage_period_forward :
      let b = sync_usage_period start end reset a in
      StartsNoEarlier a.usage_period_starts_at b.usage_period_starts_at
      × ((b.files_uploaded_in_period ≡ a.files_uploaded_in_period)
          ⊎ ((b.files_uploaded_in_period ≡ 0)
              × (reset ≡ true)
              × (b.usage_period_starts_at ≡ start)
              × StartsLater a.usage_period_starts_at start))
  unfolding sync_usage_period
  sync_usage_period_forward = ground arith

  -- A renewal that is delivered twice resets the count of files once: what was counted in between
  -- stays.
  pub sync_usage_period_twice :
      (used : ℕ)
      → let b = sync_usage_period start end reset a in
        let c = record b { files_uploaded_in_period = used } in
        sync_usage_period start end reset c ≡ c
  unfolding sync_usage_period
  sync_usage_period_twice used = ground arith
