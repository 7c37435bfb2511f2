-- ===== src/Billing/Product.antt =====
-- Product codes, their limits, and the Stripe prices that stand for them.
use rubrica_back.Base.{
  ℕ, String, Bool, ◌||◌, Option, none, some, List, [], ◌∷◌, str_eq, if◌then◌else◌, truthy, get_or,
}
use rubrica_back.Base.Actions.{Result, ok, err, workflow_error}
use rubrica_back.Base.Dict.{TextDict, lookup_text, insert_text}

-- `_normalize_product_code`: no code is the base plan, and so is the code of the first release.
unfoldable pub normalize_product_code : Option String → String
normalize_product_code code =
    let value : String = get_or (truthy code) "rubrica_base" in
    if str_eq value "rubrica_mvp" then "rubrica_base" else value

-- `PLAN_FILE_LIMITS.get(code)`
unfoldable pub plan_file_limit : String → Option ℕ
plan_file_limit code =
    if str_eq code "rubrica_base"
    then some 20
    else if str_eq code "rubrica_intermediate"
    then some 80
    else if str_eq code "rubrica_team"
    then some 200
    else none

-- `PLAN_MEMBER_LIMITS.get(code, 1)`
unfoldable pub plan_member_limit : String → ℕ
plan_member_limit code =
    if str_eq code "rubrica_intermediate" then 3 else if str_eq code "rubrica_team" then 10 else 1

-- `code in BUSINESS_PRODUCT_CODES`
unfoldable pub is_business_product : String → Bool
is_business_product code = str_eq code "rubrica_intermediate" || str_eq code "rubrica_team"

pub data Plan : Type 0 where
  essential professional team : Plan

pub data Interval : Type 0 where
  monthly annual : Interval

pub data Currency : Type 0 where
  brl usd eur jpy : Currency

-- The configuration that billing reads: `STRIPE_PRICE_{plan}_{interval}_{currency}`, the days of
-- grace, the provider, the address of the site without trailing slashes, `str.upper`, and
-- `UUID(text)`, which fails on a malformed identifier.
pub record Settings : Type 0 where
  pub stripe_price : Plan → Interval → Currency → Option String
  pub grace_period_days : ℕ
  pub billing_provider : String
  pub public_web_url : String
  pub upper : String → String
  pub parse_uuid : String → Option ℕ

abbrev pub product_of : Plan → String
product_of essential = "rubrica_base"
product_of professional = "rubrica_intermediate"
product_of team = "rubrica_team"

-- The plan of a product code in `_price_for_currency`; any other code has no prices.
unfoldable pub plan_of : String → Option Plan
plan_of code =
    if str_eq code "rubrica_base"
    then some essential
    else if str_eq code "rubrica_intermediate"
    then some professional
    else if str_eq code "rubrica_team"
    then some team
    else none

unfoldable pub interval_of : String → Option Interval
interval_of name =
    if str_eq name "month" then some monthly else if str_eq name "year" then some annual else none

unfoldable pub currency_of : String → Option Currency
currency_of name =
    if str_eq name "BRL"
    then some brl
    else if str_eq name "USD"
    then some usd
    else if str_eq name "EUR"
    then some eur
    else if str_eq name "JPY"
    then some jpy
    else none

module _ (settings : Settings) where
  open settings use {stripe_price, upper}

  -- The price ids of one plan, in the order of the tuple in `_product_code`.
  unfoldable pub plan_prices : Plan → List (Option String)
  plan_prices p =
      stripe_price p monthly brl
      ∷ stripe_price p monthly usd
      ∷ stripe_price p monthly eur
      ∷ stripe_price p monthly jpy
      ∷ stripe_price p annual brl
      ∷ stripe_price p annual usd
      ∷ stripe_price p annual eur
      ∷ stripe_price p annual jpy
      ∷ []

  -- The dict comprehension of `_product_code`, one plan at a time: a price that is not configured is
  -- skipped, and a price id that is configured twice keeps its last product.
  unfoldable pub add_prices : String → List (Option String) → TextDict String → TextDict String
  add_prices code [] d = d
  add_prices code (p ∷ ps) d =
      add_prices code ps (elim (truthy p) [ none ↦ d | some id ↦ insert_text id code d ])

  unfoldable pub configured_prices : TextDict String
  configured_prices = add_prices (product_of team) (plan_prices team) (
      add_prices (product_of professional) (plan_prices professional)
        (add_prices (product_of essential) (plan_prices essential) []))

  -- `_price_for_currency`
  unfoldable pub price_for_currency : String → String → String → Result String
  price_for_currency currency product_code billing_interval =
      let missing = workflow_error "Stripe price is not configured" 503 in
      elim (plan_of product_code) [
        | none ↦ err missing
        | some plan ↦ elim (interval_of billing_interval) [
          | none ↦ err missing
          | some interval ↦ elim (currency_of (upper currency)) [
            | none ↦ err missing
            | some c ↦ elim (truthy (stripe_price plan interval c)) [
              | none ↦ err missing
              | some id ↦ ok id
            ]
          ]
        ]
      ]

  -- `_product_code`, from the price id and the metadata of a resource.
  unfoldable pub product_code_of : Option String → Option String → String
  product_code_of price_id metadata_code =
      let normalized : String = normalize_product_code metadata_code in
      let fallback : String = elim (plan_file_limit normalized) [
        | none ↦ "rubrica_base"
        | some _ ↦ normalized
      ] in
      elim price_id [
        | none ↦ fallback
        | some id ↦ get_or (lookup_text id configured_prices) fallback
      ]
