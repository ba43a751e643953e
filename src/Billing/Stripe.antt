-- ===== src/Billing/Stripe.antt =====
-- billing/service.py: the calls of Stripe. The library is a parameter, `none` where it is not
-- installed; what it raises is its own.
use goderash.Common.{ℕ, String, Bool, Option, none, some, Outcome, returned, raised, ◌>>=◌}
use goderash.Http.{LogError, warn_with_names}

pub data StripeError : Type 0 where
  stripe_error : StripeError

-- The three calls the code makes, under the secret key of the settings.
pub record Stripe : Type 0 where
  pub create_customer : String → String → String → Outcome StripeError String
  pub create_subscription : String → String → String → Outcome StripeError String
  pub create_usage_record : String → ℕ → Outcome StripeError (Unit {0})

-- `except Exception as exc: log.warning(…, error=…)` and the value that follows.
abbrev or_warn : {A B : Type 0} → Bool → (A → B) → B → Outcome StripeError A → Outcome LogError B
or_warn enabled wrap fallback (returned value) = returned (wrap value)
or_warn enabled wrap fallback (raised exc) = warn_with_names enabled >>= (λ _. returned fallback)

unfoldable pub create_stripe_customer :
    Bool → Option Stripe → String → String → String → Outcome LogError (Option String)
create_stripe_customer enabled none email display_name tenant_id = returned none
create_stripe_customer enabled (some stripe) email display_name tenant_id =
    or_warn enabled some none (stripe.create_customer email display_name tenant_id)

unfoldable pub create_stripe_subscription :
    Bool → Option Stripe → String → String → Option String → Outcome LogError (Option String)
create_stripe_subscription enabled stripe customer_id plan none = returned none
create_stripe_subscription enabled none customer_id plan (some price_id) = returned none
create_stripe_subscription enabled (some stripe) customer_id plan (some price_id) =
    or_warn enabled some none (stripe.create_subscription customer_id plan price_id)

unfoldable pub report_stripe_usage : Bool → Option Stripe → String → ℕ → Outcome LogError (Unit {0})
report_stripe_usage enabled none subscription_item_id quantity = returned tt
report_stripe_usage enabled (some stripe) subscription_item_id quantity =
    or_warn enabled (λ _. tt) tt (stripe.create_usage_record subscription_item_id quantity)
