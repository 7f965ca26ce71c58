-- ===== src/Main/Config/RoundTrip.antt =====
-- Writing a configuration file that load_config (cpp/main/main.cpp) reads.
use quantforge_engine.Prelude.{
  ◌≡◌, ◌≢◌, refl, ◌∙◌, ap, Bool, true, false, some, [], ◌∷◌, ◌++◌, if◌then◌else◌, ◌==◌, arith, All,
  All-append,
}
use quantforge_engine.Prelude.Text.{Text, codes}
use quantforge_engine.Main.Config.{
  get_lines, trim, trim_front, trim_back, split_colon, set_key, parse_line, parse_lines,
  default_config, load_config,
}

abbrev pub NoNewline : Text → Type 0
NoNewline = All (λ c. c ≢ 10)

abbrev pub flag_text : Bool → Text
flag_text true = codes "true"
flag_text false = codes "false"

-- The four settings, a line each.
abbrev pub config_text : Text → Text → Bool → Bool → Text
config_text url brokers paper dry =
    codes "redis_url: "
    ++ (url
        ++ (10
            ∷ (codes "kafka_brokers: "
                ++ (brokers
                    ++ (10
                        ∷ (codes "paper_trading: "
                            ++ (flag_text paper
                                ++ (10 ∷ (codes "dry_run: " ++ (flag_text dry ++ (10 ∷ [])))))))))))

get_lines-line : (l rest : Text) → NoNewline l → get_lines (l ++ (10 ∷ rest)) ≡ l ∷ get_lines rest
unfolding get_lines
get_lines-line [] rest _ = refl
get_lines-line (c ∷ cs) rest (ne, h) = ground (arith, get_lines-line cs rest h)

-- The names of the keys hold no newline.
abbrev printable : Text → Bool
printable [] = true
printable (c ∷ cs) = if c == 10 then false else printable cs

printable-NoNewline : (s : Text) → printable s ≡ true → NoNewline s
printable-NoNewline [] h = tt
printable-NoNewline (c ∷ cs) h = (ground arith, printable-NoNewline cs (ground arith))

line-NoNewline : (key v : Text) → printable key ≡ true → NoNewline v → NoNewline (key ++ v)
line-NoNewline key v h n = All-append (λ c. c ≢ 10) key v (printable-NoNewline key h) n

flag_text-NoNewline : (b : Bool) → NoNewline (flag_text b)
flag_text-NoNewline true = printable-NoNewline (codes "true") refl
flag_text-NoNewline false = printable-NoNewline (codes "false") refl

get_lines-config_text :
    (url brokers : Text) (paper dry : Bool)
    → NoNewline url
    → NoNewline brokers
    → get_lines (config_text url brokers paper dry)
      ≡ (codes "redis_url: " ++ url)
        ∷ (codes "kafka_brokers: " ++ brokers)
        ∷ (codes "paper_trading: " ++ flag_text paper)
        ∷ (codes "dry_run: " ++ flag_text dry)
        ∷ []
get_lines-config_text url brokers paper dry nu nb =
    get_lines-line (codes "redis_url: " ++ url) _ (line-NoNewline (codes "redis_url: ") url refl nu)
    ∙ ap (λ r. (codes "redis_url: " ++ url) ∷ r)
        (get_lines-line (codes "kafka_brokers: " ++ brokers) _
            (line-NoNewline (codes "kafka_brokers: ") brokers refl nb)
          ∙ ap (λ r. (codes "kafka_brokers: " ++ brokers) ∷ r)
              (get_lines-line (codes "paper_trading: " ++ flag_text paper) _
                  (line-NoNewline (codes "paper_trading: ") _ refl (flag_text-NoNewline paper))
                ∙ ap (λ r. (codes "paper_trading: " ++ flag_text paper) ∷ r)
                    (get_lines-line (codes "dry_run: " ++ flag_text dry) []
                        (line-NoNewline (codes "dry_run: ") _ refl (flag_text-NoNewline dry))
                      ∙ last (codes "dry_run: " ++ flag_text dry))))
  where
    last : (l : Text) → l ∷ get_lines [] ≡ l ∷ []
    last l = unfold get_lines in refl

module _ {D : Type 0} where
  -- A file that is written with the four settings gives them back, the flags whatever they are, the
  -- two addresses if they hold no newline and no space at their ends.
  pub load_config-config_text :
      (url brokers : Text) (paper dry : Bool)
      → NoNewline url
      → trim url ≡ url
      → NoNewline brokers
      → trim brokers ≡ brokers
      → load_config {D = D} (some (config_text url brokers paper dry)) ≡ record default_config {
        redis_url = url;
        kafka_brokers = brokers;
        paper_trading = paper;
        dry_run = dry;
      }
  unfolding load_config parse_lines parse_line split_colon set_key trim trim_front trim_back
  load_config-config_text url brokers true true nu tu nb tb =
      rw (get_lines-config_text url brokers true true nu nb, tu, tb)
  load_config-config_text url brokers true false nu tu nb tb =
      rw (get_lines-config_text url brokers true false nu nb, tu, tb)
  load_config-config_text url brokers false true nu tu nb tb =
      rw (get_lines-config_text url brokers false true nu nb, tu, tb)
  load_config-config_text url brokers false false nu tu nb tb =
      rw (get_lines-config_text url brokers false false nu nb, tu, tb)
