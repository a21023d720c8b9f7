-- ===== src/Arbitrage/Model.antt =====
-- core/arbitrage/models.py, feed.py and intelligence/limits.py: quotes, legs, opportunities and the
-- configuration. The arithmetic of `float`, its formats and SHA-256 are parameters; a datetime is a
-- whole number of microseconds.
use demobot.Base.{Bool, List, Option, String, none, some, ℕ, ◌*◌, ◌&&◌, false}

pub record Host (F : Type 0) : Type 0 where
  pub less : F → F → Bool
  pub at_most : F → F → Bool
  pub equal : F → F → Bool
  pub plus : F → F → F
  pub minus : F → F → F
  pub times : F → F → F
  pub divided : F → F → F
  pub floor : F → F
  pub abs : F → F
  pub is_finite : F → Bool
  -- `int(x)`, of a number that is not negative
  pub int_of : F → ℕ
  -- `decimal m k` is the float of the literal `m * 10 ** -k`.
  pub decimal : ℕ → ℕ → F
  -- `(now - then).total_seconds()`
  pub seconds_between : ℕ → ℕ → F
  -- `f"{x}"`, `f"{x:.4f}"` and `hashlib.sha256(s.encode("utf-8")).hexdigest()`
  pub shown : F → String
  pub fixed4 : F → String
  pub sha256 : String → String
  -- `s.upper()`
  pub upper : String → String

pub record VenueQuote (F : Type 0) : Type 0 where
  pub venue : String
  pub symbol : String
  pub bid : Option F
  pub ask : Option F
  pub ccy : String
  pub size : Option F
  pub fees_bps : F
  pub latency_ms : Option F

pub data Action : Type 0 where
  buying selling : Action

pub record ArbitrageLeg (F : Type 0) : Type 0 where
  pub action : Action
  pub venue : String
  pub price : F
  pub quantity : F
  pub ccy : String
  pub fees_bps : F

pub record ArbitrageOpportunity (F : Type 0) : Type 0 where
  pub symbol : String
  pub buy : ArbitrageLeg F
  pub sell : ArbitrageLeg F
  pub gross_edge : F
  pub net_edge : F
  pub edge_bps : F
  pub size : F
  pub ccy : String
  pub notes : List String
  pub opportunity_id : String
  pub as_of : Option ℕ

pub record ArbitrageConfig (F : Type 0) : Type 0 where
  pub min_edge_bps : F
  pub min_size : F
  pub allow_same_venue : Bool
  pub default_size : F
  pub max_latency_ms : Option F

pub record QuoteSnapshot (F : Type 0) : Type 0 where
  pub as_of : ℕ
  pub quotes : List (VenueQuote F)

pub record SessionLimits : Type 0 where
  pub ttl_seconds : ℕ
  pub max_snapshots : ℕ
  pub max_events : ℕ
  pub session_idle_expiry_seconds : ℕ

abbrev pub microseconds : ℕ → ℕ
microseconds seconds = seconds * 1_000_000

module _ {F : Type 0} (host : Host F) where
  open host use {less, decimal}

  -- `0.0`
  abbrev pub nought : F
  nought = decimal 0 0

  abbrev pub is_positive : Option F → Bool
  is_positive none = false
  is_positive (some x) = less nought x

  -- `VenueQuote.has_liquidity`
  unfoldable pub has_liquidity : VenueQuote F → Bool
  has_liquidity q = is_positive q.bid && is_positive q.ask
