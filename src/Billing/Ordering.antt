-- ===== src/Billing/Ordering.antt =====
-- Subscription events that arrive late or twice.
use rubrica_back.Base.{
  String, ◌<◌, ◌≡◌, refl, Bool, false, Option, none, some, arith, ltb, if◌then◌else◌, get_or,
  or_else, Bool-cases, inl, inr, ap, sym, ◌∙◌,
}
use rubrica_back.Store.{Instant, AccountStatus, Account}
use rubrica_back.Billing.Product.{Settings}
use rubrica_back.Billing.Resource.{Resource, timestamp, product_code, subscription_period}
use rubrica_back.Billing.Access.{is_active}
use rubrica_back.Billing.Account.{sync_usage_period}
use rubrica_back.Billing.Effects.{subscription_status, is_stale, after_subscription}

module _ (settings : Settings) where
  -- What a subscription event makes of the account (`apply_subscription`).
  unfoldable pub receive : Instant → Resource → Instant → Account → Account
  receive now r created a =
      if is_stale (some created) a then a else after_subscription settings now r (some created) a

  -- The part of the account that the newest event alone decides.
  pub record View : Type 0 where
    pub status : AccountStatus
    pub current_product_code : Option String
    pub provider_subscription_id : Option String
    pub cancel_at_period_end : Bool
    pub cancels_at : Option Instant
    pub last_provider_event_created_at : Option Instant

  abbrev pub view : Account → View
  view a = record {
    status = a.status;
    current_product_code = a.current_product_code;
    provider_subscription_id = a.provider_subscription_id;
    cancel_at_period_end = a.cancel_at_period_end;
    cancels_at = a.cancels_at;
    last_provider_event_created_at = a.last_provider_event_created_at;
  }

  -- What an event shows when it is the newest, whatever the account was.
  unfoldable pub newest : Resource → Instant → View
  newest r created = record {
    status = subscription_status (get_or r.status "");
    current_product_code = some (product_code settings r);
    provider_subscription_id = some (get_or r.id "None");
    cancel_at_period_end = r.cancel_at_period_end;
    cancels_at =
        if r.cancel_at_period_end
        then or_else (timestamp r.cancel_at) (subscription_period r).1
        else none;
    last_provider_event_created_at = some created;
  }

  view-after_subscription :
      (now : Instant) (r : Resource) (c : Instant) (a : Account)
      → view (after_subscription settings now r (some c) a) ≡ newest r c
  unfolding after_subscription sync_usage_period newest
  view-after_subscription now r c a =
      elim (Bool-cases (is_active (subscription_status (get_or r.status "")))) [
        | inl on ↦ ground arith
        | inr off ↦ ground arith
      ]

  -- The event is older than the last one.
  abbrev pub is_older : Instant → Option Instant → Bool
  is_older c none = false
  is_older c (some last) = ltb c last

  -- The event keeps the view, or replaces it.
  abbrev pub deliver : Resource → Instant → View → View
  deliver r c v = if is_older c v.last_provider_event_created_at then v else newest r c

  view-receive :
      (now : Instant) (r : Resource) (c : Instant) (a : Account)
      → view (receive now r c a) ≡ deliver r c (view a)
  unfolding receive is_stale
  view-receive now r c a = ground (arith, view-after_subscription now r c a)

  last-newest : (r : Resource) (c : Instant) → (newest r c).last_provider_event_created_at ≡ some c
  unfolding newest
  last-newest r c = refl

  deliver_order :
      (r q : Resource) (c d : Instant) (v : View)
      → c < d
      → deliver q d (deliver r c v) ≡ deliver r c (deliver q d v)
  deliver_order r q c d v h = ground (arith, last-newest r c, last-newest q d)

  -- Two subscription events that were created at different instants leave the same status, product,
  -- subscription and cancellation in whichever order they are delivered.
  pub receive_order :
      (now now' later later' : Instant) (r q : Resource) (c d : Instant) (a : Account)
      → c < d
      → view (receive now' q d (receive now r c a))
        ≡ view (receive later' r c (receive later q d a))
  receive_order now now' later later' r q c d a h =
      view-receive now' q d (receive now r c a)
      ∙ ap (deliver q d) (view-receive now r c a)
      ∙ deliver_order r q c d (view a) h
      ∙ sym (ap (deliver r c) (view-receive later q d a))
      ∙ sym (view-receive later' r c (receive later q d a))
