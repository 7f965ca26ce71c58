-- ===== src/Oms/OrderIds.antt =====
-- The ids that `generate_order_id` of cpp/oms/oms.cpp makes, and how a sequence number is read back.
use quantforge_engine.Prelude.{
  ℕ, ◌<◌, ◌^◌, ◌≡◌, refl, ◌∙◌, sym, ap, [], ◌∷◌, ◌++◌, arith, ◌==◌, if◌then◌else◌, drop, All,
}
use quantforge_engine.Prelude.Text.{
  Text, codes, decimal, value_from, value-decimal, IsDigit, decimal-IsDigit,
}
use quantforge_engine.Oms.Manager.{order_id_text}

-- What follows the first '-'.
abbrev after_dash : Text → Text
after_dash [] = []
after_dash (c ∷ cs) = if c == b'-' then cs else after_dash cs

abbrev pub issued : Text → ℕ
issued oid = value_from 0 (after_dash (drop 3 oid))

after_dash-append :
    (ds rest : Text) → All IsDigit ds → after_dash (ds ++ (codes "-" ++ rest)) ≡ rest
after_dash-append [] rest h = refl
after_dash-append (x ∷ ds) rest (digit, h) = ground (arith, after_dash-append ds rest h)

pub issued-order_id_text : (ts seq : ℕ) → seq < 2 ^ 64 → issued (order_id_text ts seq) ≡ seq
unfolding order_id_text
issued-order_id_text ts seq h =
    rw (after_dash-append (decimal ts) (decimal seq) (decimal-IsDigit ts))
      (value-decimal seq (omega arith))

-- Ids made from different sequence numbers below 2 ^ 64 differ, whatever the clock shows.
pub order_id_text-injective :
    (ts seq ts' seq' : ℕ)
    → seq < 2 ^ 64
    → seq' < 2 ^ 64
    → order_id_text ts seq ≡ order_id_text ts' seq'
    → seq ≡ seq'
order_id_text-injective ts seq ts' seq' h h' e =
    sym (issued-order_id_text ts seq h) ∙ ap issued e ∙ issued-order_id_text ts' seq' h'
