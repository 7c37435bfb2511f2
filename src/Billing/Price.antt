-- ===== src/Billing/Price.antt =====
-- The way from a plan to a configured price and back.
use rubrica_back.Base.{
  ℕ, zero, suc, String, Bool, true, false, ◌≡◌, refl, Option, none, some, List, [], ◌∷◌, arith, inl,
  inr, Option-cases, str_eq, str_eq_iff, if◌then◌else◌, truthy, any,
}
use rubrica_back.Base.Actions.{ok}
use rubrica_back.Base.Dict.{TextDict, lookup_text, lookup_text-insert_text}
use rubrica_back.Billing.Product.{
  Plan, Interval, monthly, annual, Currency, brl, usd, eur, jpy, Settings, product_of, plan_of,
  interval_of, currency_of, plan_prices, add_prices, configured_prices, price_for_currency,
  product_code_of,
}

-- The price id is configured, and not empty.
abbrev pub is_price : String → Option String → Bool
is_price id p = elim (truthy p) [ none ↦ false | some q ↦ str_eq id q ]

abbrev nth : ℕ → List (Option String) → Option (Option String)
nth n [] = none
nth zero (x ∷ xs) = some x
nth (suc n) (x ∷ xs) = nth n xs

any_at :
    (p : Option String → Bool) (n : ℕ) (xs : List (Option String)) (x : Option String)
    → nth n xs ≡ some x
    → p x ≡ true
    → any p xs ≡ true
any_at p n [] x e h = absurd (ground arith)
any_at p zero (y ∷ xs) x e h = ground arith
any_at p (suc n) (y ∷ xs) x e h = ground (arith, any_at p n xs x e h)

-- The place of a price in `plan_prices`.
abbrev place_of : Interval → Currency → ℕ
place_of monthly brl = 0
place_of monthly usd = 1
place_of monthly eur = 2
place_of monthly jpy = 3
place_of annual brl = 4
place_of annual usd = 5
place_of annual eur = 6
place_of annual jpy = 7

is_price_self : (p : Option String) (id : String) → truthy p ≡ some id → is_price id p ≡ true
is_price_self p id h = grind (arith, str_eq_iff id id)

plan_of-product_of : (code : String) (p : Plan) → plan_of code ≡ some p → product_of p ≡ code
unfolding plan_of
plan_of-product_of code p h = grind (arith, str_eq_iff)

module _ (settings : Settings) where
  open settings use {stripe_price}

  lookup-add_prices :
      (id code : String) (ps : List (Option String)) (d : TextDict String)
      → lookup_text id (add_prices settings code ps d)
        ≡ (if any (is_price id) ps then some code else lookup_text id d)
  unfolding add_prices
  lookup-add_prices id code [] d = refl
  lookup-add_prices id code (p ∷ ps) d = elim (Option-cases (truthy p)) [
    | inl missing ↦ grind (arith, lookup-add_prices id code ps, missing)
    | inr (q, found) ↦ grind (arith, lookup-add_prices id code ps, lookup_text-insert_text, found)
  ]

  -- No price id is configured for two plans.
  abbrev pub IsUnambiguous : Type 0
  IsUnambiguous =
      (id : String) (p q : Plan)
      → any (is_price id) (plan_prices settings p) ≡ true
      → any (is_price id) (plan_prices settings q) ≡ true
      → product_of p ≡ product_of q

  nth-place_of :
      (p : Plan) (i : Interval) (c : Currency)
      → nth (place_of i c) (plan_prices settings p) ≡ some (stripe_price p i c)
  unfolding plan_prices
  nth-place_of p monthly brl = refl
  nth-place_of p monthly usd = refl
  nth-place_of p monthly eur = refl
  nth-place_of p monthly jpy = refl
  nth-place_of p annual brl = refl
  nth-place_of p annual usd = refl
  nth-place_of p annual eur = refl
  nth-place_of p annual jpy = refl

  price_is_listed :
      (p : Plan) (i : Interval) (c : Currency) (id : String)
      → truthy (stripe_price p i c) ≡ some id
      → any (is_price id) (plan_prices settings p) ≡ true
  price_is_listed p i c id h =
      any_at (is_price id) (place_of i c) (plan_prices settings p) (stripe_price p i c)
        (nth-place_of p i c) (is_price_self (stripe_price p i c) id h)

  listed-lookup :
      IsUnambiguous
      → (id : String) (p : Plan) → any (is_price id) (plan_prices settings p) ≡ true
      → lookup_text id (configured_prices settings) ≡ some (product_of p)
  unfolding configured_prices
  listed-lookup clear id p listed = grind (arith, lookup-add_prices id, clear id p)

  priced :
      (currency code interval id : String)
      → price_for_currency settings currency code interval ≡ ok id
      → (p : Plan) × (product_of p ≡ code) × (any (is_price id) (plan_prices settings p) ≡ true)
  unfolding price_for_currency
  priced currency code interval id h = elim (Option-cases (plan_of code)) [
    | inl e ↦ absurd (grind (arith, e))
    | inr (p, e) ↦ elim (Option-cases (interval_of interval)) [
      | inl f ↦ absurd (grind (arith, e, f))
      | inr (i, f) ↦ elim (Option-cases (currency_of (settings.upper currency))) [
        | inl g ↦ absurd (grind (arith, e, f, g))
        | inr (c, g) ↦
            (p, plan_of-product_of code p e, price_is_listed p i c id (grind (arith, e, f, g)))
      ]
    ]
  ]

  -- Where no price id is configured for two plans, the price that a checkout or a portal asks for is
  -- read back, in the events of the subscription, as the product that was asked for.
  pub price_for_currency-product_code_of :
      IsUnambiguous
      → (currency code interval id : String) (metadata_code : Option String)
      → price_for_currency settings currency code interval ≡ ok id
      → product_code_of settings (some id) metadata_code ≡ code
  unfolding price_for_currency product_code_of
  price_for_currency-product_code_of clear currency code interval id metadata_code h =
      let (p, named, listed) = priced currency code interval id h in
      rw (listed-lookup clear id p listed) named
