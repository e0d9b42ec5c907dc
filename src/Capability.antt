-- ===== src/Capability.antt =====
-- borsa-types/src/capability.rs: the capabilities and their texts.
pub mod Labels
use borsa.Prelude.{String}

pub data Capability : Type 0 where
  quote search history download_history : Capability
  profile isin earnings income_statement : Capability
  balance_sheet cashflow calendar recommendations : Capability
  recommendations_summary upgrades_downgrades analyst_price_target major_holders : Capability
  institutional_holders mutual_fund_holders insider_transactions insider_roster : Capability
  net_share_purchase_activity esg news options_expirations : Capability
  option_chain stream_quotes stream_candles stream_options : Capability

unfoldable pub as_str : Capability → String
as_str quote = "quote"
as_str search = "search"
as_str history = "history"
as_str download_history = "download:history"
as_str profile = "profile"
as_str isin = "isin"
as_str earnings = "earnings"
as_str income_statement = "income-statement"
as_str balance_sheet = "balance-sheet"
as_str cashflow = "cashflow"
as_str calendar = "calendar"
as_str recommendations = "recommendations"
as_str recommendations_summary = "recommendations-summary"
as_str upgrades_downgrades = "upgrades-downgrades"
as_str analyst_price_target = "analyst-price-target"
as_str major_holders = "major-holders"
as_str institutional_holders = "institutional-holders"
as_str mutual_fund_holders = "mutual-fund-holders"
as_str insider_transactions = "insider-transactions"
as_str insider_roster = "insider-roster"
as_str net_share_purchase_activity = "net-share-purchase-activity"
as_str esg = "esg"
as_str news = "news"
as_str options_expirations = "options-expirations"
as_str option_chain = "option-chain"
as_str stream_quotes = "stream-quotes"
as_str stream_candles = "stream-candles"
as_str stream_options = "stream-options"
