-- ===== src/Tests/Config.antt =====
-- Runs of cpp/main/main.cpp on configuration files.
use quantforge_engine.Prelude.{◌≡◌, refl, true, false, some, [], ◌∷◌, ◌++◌, arith}
use quantforge_engine.Prelude.Text.{Text, codes}
use quantforge_engine.Doubles.Fixed.{Fixed}
use quantforge_engine.Main.Config.{
  get_lines, load_config, default_config, key_redis, key_kafka, key_paper, key_dry, trim,
  trim_front, trim_back, load_token, pop_ends, token,
}
use quantforge_engine.Main.Config.Lines.{last_value, text_or, flag_or, load_config_lem}
use quantforge_engine.Main.Config.RoundTrip.{config_text, load_config-config_text}

-- The section of config/engine.yaml that sets the mode.
abbrev mode_line : Text
mode_line =
    codes
      "  paper_trading: \"$(PAPER TRADING:-True)\" # If true: simulate orders, no real execution"

abbrev dry_line : Text
dry_line = codes "  dry_run: false #If true: start but don't submit orders"

abbrev mode : Text
mode = codes "mode:" ++ (10 ∷ (mode_line ++ (10 ∷ (dry_line ++ (10 ∷ [])))))

load_config_lem_example : load_config {D = Fixed} (some mode) ≡ record default_config {
  redis_url = text_or (last_value key_redis (get_lines mode)) (codes "redis://127.0.0.1:6379");
  kafka_brokers = text_or (last_value key_kafka (get_lines mode)) (codes "127.0.0.1:9092");
  paper_trading = flag_or (last_value key_paper (get_lines mode)) true;
  dry_run = flag_or (last_value key_dry (get_lines mode)) false;
}
load_config_lem_example = load_config_lem mode

load_config-config_text_example :
    load_config {D = Fixed} (some (config_text (codes "redis://h:1") (codes "k:9092") false true))
    ≡ record default_config {
      redis_url = codes "redis://h:1";
      kafka_brokers = codes "k:9092";
      paper_trading = false;
      dry_run = true;
    }
unfolding trim trim_front trim_back
load_config-config_text_example =
    load_config-config_text (codes "redis://h:1") (codes "k:9092") false true (omega arith) refl
      (omega arith) refl

crlf : load_token (some (codes "abc" ++ (13 ∷ 10 ∷ codes "rest"))) (some []) ≡ token (codes "abc")
unfolding load_token get_lines pop_ends
crlf = refl
