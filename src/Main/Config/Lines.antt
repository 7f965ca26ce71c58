-- ===== src/Main/Config/Lines.antt =====
-- Which line of the configuration decides a setting of load_config (cpp/main/main.cpp).
use quantforge_engine.Prelude.{
  ◌≡◌, ◌≢◌, ◌++◌, refl, ◌∙◌, ap, Bool, true, false, Option, none, some, List, [], ◌∷◌,
  if◌then◌else◌, ◌==◌, arith, Bool-cases, inl, inr,
}
use quantforge_engine.Prelude.Text.{Text, codes, text_beq, text_beq_iff}
use quantforge_engine.Types.{EngineConfig}
use quantforge_engine.Main.Config.{
  get_lines, trim, split_colon, set_key, parse_setting, parse_line, parse_lines, default_config,
  load_config, key_redis, key_kafka, key_paper, key_dry,
}

-- The value that a line gives to a key: none for another key, an empty line, a comment that starts
-- in the first column, or a line with no colon.
abbrev pub value_at : Text → Option (Text × Text) → Option Text
value_at k none = none
value_at k (some (key, val)) = if text_beq (trim key) k then some (trim val) else none

abbrev pub line_value : Text → Text → Option Text
line_value k [] = none
line_value k (c ∷ cs) = if c == 35 then none else value_at k (split_colon (c ∷ cs))

abbrev pub later : Option Text → Option Text → Option Text
later none old = old
later (some new) old = some new

-- The value of the last line that gives one.
abbrev pub last_value : Text → List Text → Option Text
last_value k [] = none
last_value k (l ∷ ls) = later (last_value k ls) (line_value k l)

abbrev pub text_or : Option Text → Text → Text
text_or none old = old
text_or (some v) old = v

abbrev pub flag_or : Option Text → Bool → Bool
flag_or none old = old
flag_or (some v) old = text_beq v (codes "true")

text_or-later : (a b : Option Text) (t : Text) → text_or (later a b) t ≡ text_or a (text_or b t)
text_or-later none b t = refl
text_or-later (some v) b t = refl

flag_or-later : (a b : Option Text) (t : Bool) → flag_or (later a b) t ≡ flag_or a (flag_or b t)
flag_or-later none b t = refl
flag_or-later (some v) b t = refl

module _ {D : Type 0} where
  abbrev pub with_values : EngineConfig D → (Text → Option Text) → EngineConfig D
  with_values cfg value = record cfg {
    redis_url = text_or (value key_redis) cfg.redis_url;
    kafka_brokers = text_or (value key_kafka) cfg.kafka_brokers;
    paper_trading = flag_or (value key_paper) cfg.paper_trading;
    dry_run = flag_or (value key_dry) cfg.dry_run;
  }

  parse_setting-with_values :
      (cfg : EngineConfig D) (o : Option (Text × Text))
      → parse_setting cfg o ≡ with_values cfg (λ k. value_at k o)
  unfolding set_key
  parse_setting-with_values cfg none = refl
  parse_setting-with_values cfg (some (key, val)) = ground arith

  parse_line-with_values :
      (cfg : EngineConfig D) (l : Text) → parse_line cfg l ≡ with_values cfg (λ k. line_value k l)
  unfolding parse_line
  parse_line-with_values cfg [] = refl
  parse_line-with_values cfg (c ∷ cs) = elim (Bool-cases (c == 35)) [
    | inl comment ↦ rw comment
    | inr setting ↦ rw setting (parse_setting-with_values cfg (split_colon (c ∷ cs)))
  ]

  pub parse_lines-with_values :
      (cfg : EngineConfig D) (ls : List Text)
      → parse_lines cfg ls ≡ with_values cfg (λ k. last_value k ls)
  unfolding parse_lines
  parse_lines-with_values cfg [] = refl
  parse_lines-with_values cfg (l ∷ ls) =
      parse_lines-with_values (parse_line cfg l) ls
      ∙ ap (λ c. with_values c (λ k. last_value k ls)) (parse_line-with_values cfg l)
      ∙ simp (text_or-later, flag_or-later)

  -- Of a configuration file that opens, each of the four settings has the value of the last line
  -- that gives one to its key, the keys and values trimmed, and its default if there is none; a flag
  -- is set by the value `true` only, and all else is as in the defaults.
  pub load_config_lem :
      (text : Text)
      → load_config {D = D} (some text) ≡ record default_config {
        redis_url =
            text_or (last_value key_redis (get_lines text)) (codes "redis://127.0.0.1:6379");
        kafka_brokers = text_or (last_value key_kafka (get_lines text)) (codes "127.0.0.1:9092");
        paper_trading = flag_or (last_value key_paper (get_lines text)) true;
        dry_run = flag_or (last_value key_dry (get_lines text)) false;
      }
  unfolding load_config
  load_config_lem text = parse_lines-with_values default_config (get_lines text)

last_value-append :
    (k : Text) (pre post : List Text) (l v : Text)
    → line_value k l ≡ some v
    → last_value k post ≡ none
    → last_value k (pre ++ (l ∷ post)) ≡ some v
last_value-append k [] post l v e n = ground arith
last_value-append k (p ∷ pre) post l v e n = rw (last_value-append k pre post l v e n)

flag_off : (v : Text) (old : Bool) → v ≢ codes "true" → flag_or (some v) old ≡ false
flag_off v old ne = ground (arith, text_beq_iff v (codes "true"))

module _ (D : Type 0) where
  -- If the last line for `paper_trading` gives any value but the bare word `true`, such as the word in
  -- quotes or with a comment behind it, then paper trading is off.
  pub load_config-live :
      (text v l : Text) (pre post : List Text)
      → get_lines text ≡ pre ++ (l ∷ post)
      → line_value key_paper l ≡ some v
      → v ≢ codes "true"
      → last_value key_paper post ≡ none
      → (load_config {D = D} (some text)).paper_trading ≡ false
  load_config-live text v l pre post e h ne n =
      ap (λ (c : EngineConfig D). c.paper_trading) (load_config_lem {D = D} text)
      ∙ ap (λ o. flag_or o true)
          (ap (last_value key_paper) e ∙ last_value-append key_paper pre post l v h n)
      ∙ flag_off v true ne
