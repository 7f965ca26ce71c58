-- ===== src/Main/Config.antt =====
-- cpp/main/main.cpp: load_token and load_config. A file is its text, `none` where it does not open.
pub mod Lines
pub mod RoundTrip
use quantforge_engine.Prelude.{
  ℕ, ◌-◌, ◌≡◌, Bool, true, false, ◌&&◌, ◌||◌, Option, none, some, List, [], ◌∷◌, ◌++◌,
  if◌then◌else◌, ◌==◌,
}
use quantforge_engine.Prelude.Int.{ℤ, pos}
use quantforge_engine.Prelude.Text.{Text, codes, text_beq}
use quantforge_engine.Types.{ThreadConfig, EngineConfig}

abbrev first_char : ℕ → List Text → List Text
first_char c [] = (c ∷ []) ∷ []
first_char c (l ∷ ls) = (c ∷ l) ∷ ls

-- The lines that `std::getline` gives until it fails: what stands behind the last newline is a line
-- if it is not empty.
unfoldable pub get_lines : Text → List Text
get_lines [] = []
get_lines (c ∷ cs) = let rest = get_lines cs in if c == 10 then [] ∷ rest else first_char c rest

-- One of " \t\r\n".
abbrev pub is_space : ℕ → Bool
is_space c = (c == 32) || ((c == 9) || ((c == 13) || (c == 10)))

unfoldable pub trim_front : Text → Text
trim_front [] = []
trim_front (c ∷ cs) = let rest = trim_front cs in if is_space c then rest else c ∷ cs

-- A character with what is left of the text behind it.
abbrev pub keep_back : ℕ → Text → Text
keep_back c [] = if is_space c then [] else c ∷ []
keep_back c (x ∷ xs) = c ∷ x ∷ xs

unfoldable pub trim_back : Text → Text
trim_back [] = []
trim_back (c ∷ cs) = keep_back c (trim_back cs)

-- The lambda `trim`: `substr(b, e - b + 1)` from the first to the last character that is no space.
unfoldable pub trim : Text → Text
trim s = trim_back (trim_front s)

-- `line.find(':')` and the two calls of `substr`.
unfoldable pub split_colon : Text → Option (Text × Text)
split_colon [] = none
split_colon (c ∷ cs) = elim (c == 58) [
  | true ↦ some ([], cs)
  | false ↦ elim (split_colon cs) [ none ↦ none | some (key, val) ↦ some (c ∷ key, val) ]
]

abbrev pub key_redis : Text
key_redis = codes "redis_url"

abbrev pub key_kafka : Text
key_kafka = codes "kafka_brokers"

abbrev pub key_paper : Text
key_paper = codes "paper_trading"

abbrev pub key_dry : Text
key_dry = codes "dry_run"

module _ {D : Type 0} where
  -- The four tests on a trimmed key.
  unfoldable pub set_key : EngineConfig D → Text → Text → EngineConfig D
  set_key cfg key val = record cfg {
    redis_url = if text_beq key key_redis then val else cfg.redis_url;
    kafka_brokers = if text_beq key key_kafka then val else cfg.kafka_brokers;
    paper_trading =
        if text_beq key key_paper then text_beq val (codes "true") else cfg.paper_trading;
    dry_run = if text_beq key key_dry then text_beq val (codes "true") else cfg.dry_run;
  }

  -- The body of the loop for a line that is neither empty nor a comment.
  abbrev pub parse_setting : EngineConfig D → Option (Text × Text) → EngineConfig D
  parse_setting cfg none = cfg
  parse_setting cfg (some (key, val)) = set_key cfg (trim key) (trim val)

  unfoldable pub parse_line : EngineConfig D → Text → EngineConfig D
  parse_line cfg [] = cfg
  parse_line cfg (c ∷ cs) = if c == 35 then cfg else parse_setting cfg (split_colon (c ∷ cs))

  unfoldable pub parse_lines : EngineConfig D → List Text → EngineConfig D
  parse_lines cfg [] = cfg
  parse_lines cfg (line ∷ lines) = parse_lines (parse_line cfg line) lines

  -- `EngineConfig cfg;` and the assignments to its threads.
  abbrev pub default_config : EngineConfig D
  default_config = record {
    upstox_access_token = [];
    upstox_api_key = [];
    upstox_redirect_uri = [];
    redis_url = codes "redis://127.0.0.1:6379";
    kafka_brokers = codes "127.0.0.1:9092";
    threads = record {
      market_data_io = pos 0;
      tick_normalizer = pos 1;
      risk_gate = pos 3;
      oms = pos 3;
      fill_processor = pos 2;
      portfolio = pos 2;
      kafka_publisher = pos 4;
      heartbeat = pos 5;
    };
    strategies = [];
    paper_trading = true;
    dry_run = false;
  }

  unfoldable pub load_config : Option Text → EngineConfig D
  load_config none = default_config
  load_config (some text) = parse_lines default_config (get_lines text)

-- `while (!tok.empty() && (tok.back() == '\n' || tok.back() == '\r')) tok.pop_back();`
abbrev pub keep_token : ℕ → Text → Text
keep_token c [] = if (c == 10) || (c == 13) then [] else c ∷ []
keep_token c (x ∷ xs) = c ∷ x ∷ xs

unfoldable pub pop_ends : Text → Text
pop_ends [] = []
pop_ends (c ∷ cs) = keep_token c (pop_ends cs)

-- The first `getline` into an empty string.
abbrev pub first_line : List Text → Text
first_line [] = []
first_line (l ∷ ls) = l

pub data TokenResult : Type 0 where
  token : Text → TokenResult
  not_found : TokenResult

-- The file that is asked for, and ../quantforge/.token.
unfoldable pub load_token : Option Text → Option Text → TokenResult
load_token (some text) other = token (pop_ends (first_line (get_lines text)))
load_token none (some text) = token (pop_ends (first_line (get_lines text)))
load_token none none = not_found
