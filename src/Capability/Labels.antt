-- ===== src/Capability/Labels.antt =====
-- No two capabilities share a text.
use borsa.Prelude.{List, ◌≡◌, String, some, Option, ◌∷◌, none, [], if◌then◌else◌, refl}
use borsa.Capability.{
  Capability, as_str, quote, search, history, download_history, profile, isin, earnings,
  income_statement, balance_sheet, cashflow, calendar, recommendations, recommendations_summary,
  upgrades_downgrades, analyst_price_target, major_holders, institutional_holders,
  mutual_fund_holders, insider_transactions, insider_roster, net_share_purchase_activity, esg, news,
  options_expirations, option_chain, stream_quotes, stream_candles, stream_options,
}
use text.Mathlib.Text.{◌==◌ as str_eq}

from_label : List (String × Capability) → String → Option Capability
from_label [] s = none
from_label ((t, c) ∷ rest) s = if str_eq t s then some c else from_label rest s

abbrev labels : List (String × Capability)
labels =
    (as_str quote, quote)
    ∷ (as_str search, search)
    ∷ (as_str history, history)
    ∷ (as_str download_history, download_history)
    ∷ (as_str profile, profile)
    ∷ (as_str isin, isin)
    ∷ (as_str earnings, earnings)
    ∷ (as_str income_statement, income_statement)
    ∷ (as_str balance_sheet, balance_sheet)
    ∷ (as_str cashflow, cashflow)
    ∷ (as_str calendar, calendar)
    ∷ (as_str recommendations, recommendations)
    ∷ (as_str recommendations_summary, recommendations_summary)
    ∷ (as_str upgrades_downgrades, upgrades_downgrades)
    ∷ (as_str analyst_price_target, analyst_price_target)
    ∷ (as_str major_holders, major_holders)
    ∷ (as_str institutional_holders, institutional_holders)
    ∷ (as_str mutual_fund_holders, mutual_fund_holders)
    ∷ (as_str insider_transactions, insider_transactions)
    ∷ (as_str insider_roster, insider_roster)
    ∷ (as_str net_share_purchase_activity, net_share_purchase_activity)
    ∷ (as_str esg, esg)
    ∷ (as_str news, news)
    ∷ (as_str options_expirations, options_expirations)
    ∷ (as_str option_chain, option_chain)
    ∷ (as_str stream_quotes, stream_quotes)
    ∷ (as_str stream_candles, stream_candles)
    ∷ (as_str stream_options, stream_options)
    ∷ []

from_label-as_str : (c : Capability) → from_label labels (as_str c) ≡ some c
unfolding from_label as_str
from_label-as_str quote = refl
from_label-as_str search = refl
from_label-as_str history = refl
from_label-as_str download_history = refl
from_label-as_str profile = refl
from_label-as_str isin = refl
from_label-as_str earnings = refl
from_label-as_str income_statement = refl
from_label-as_str balance_sheet = refl
from_label-as_str cashflow = refl
from_label-as_str calendar = refl
from_label-as_str recommendations = refl
from_label-as_str recommendations_summary = refl
from_label-as_str upgrades_downgrades = refl
from_label-as_str analyst_price_target = refl
from_label-as_str major_holders = refl
from_label-as_str institutional_holders = refl
from_label-as_str mutual_fund_holders = refl
from_label-as_str insider_transactions = refl
from_label-as_str insider_roster = refl
from_label-as_str net_share_purchase_activity = refl
from_label-as_str esg = refl
from_label-as_str news = refl
from_label-as_str options_expirations = refl
from_label-as_str option_chain = refl
from_label-as_str stream_quotes = refl
from_label-as_str stream_candles = refl
from_label-as_str stream_options = refl

-- Two capabilities with the same text are the same capability.
pub as_str_injective : (c d : Capability) → as_str c ≡ as_str d → c ≡ d
as_str_injective c d h = cc (from_label-as_str c, from_label-as_str d)
