-- ===== src/Ems/Placement.antt =====
-- cpp/ems/ems.cpp: how a placement ends for the order manager.
use quantforge_engine.Prelude.{
  ◌≡◌, refl, ap, ◌∙◌, ◌⊎◌, inl, inr, false, Option, none, some, Option-cases, if_false,
}
use quantforge_engine.Prelude.Text.{Text}
use quantforge_engine.Doubles.{Double}
use quantforge_engine.Types.{OrderRequest}
use quantforge_engine.Transport.Rest.{
  HttpRequest, Net, Reply, success, error, do_request, rest_place_order,
}
use quantforge_engine.Transport.Rest.Replies.{Succeeds, do_request-Succeeds}
use quantforge_engine.Oms.Manager.{Oms, on_order_ack}
use quantforge_engine.Oms.Requests.{on_place_error}
use quantforge_engine.Ems.Response.{Value, order_id_of}
use quantforge_engine.Ems.{Ems, answer_of, ack_parsed, ems_place_order, settle, complete}

Reply-cases : (r : Reply) → ((b : Text) × (r ≡ success b)) ⊎ ((m : Text) × (r ≡ error m))
Reply-cases (success b) = inl (b, refl)
Reply-cases (error m) = inr (m, refl)

module _ {D : Type 0} ⦃d : Double D⦄ (parse : Text → Option Value) where
  complete-settle :
      (e : Ems) (s : Oms D) (req : OrderRequest D) (oid : Text) (n : Net)
      → e.rest_client.paper_mode ≡ false
      → complete parse e s req oid n ≡ settle s oid (answer_of parse (do_request n))
  unfolding complete ems_place_order rest_place_order
  complete-settle e s req oid n h =
      ap (λ (p : Option (HttpRequest D) × Reply). settle s oid (answer_of parse p.1))
        (if_false _ _ h)

  -- What the body of a successful response decides.
  pub complete-parsed :
      (e : Ems) (s : Oms D) (req : OrderRequest D) (oid : Text) (n : Net) (o : Option Text)
      → e.rest_client.paper_mode ≡ false
      → Succeeds n
      → order_id_of parse n.body ≡ o
      → complete parse e s req oid n ≡ settle s oid (ack_parsed o)
  complete-parsed e s req oid n o h v q =
      complete-settle e s req oid n h
      ∙ ap (λ r. settle s oid (answer_of parse r)) ((do_request-Succeeds n n.body).1 (v, refl))
      ∙ ap (λ r. settle s oid (ack_parsed r)) q

  -- A placement in live mode ends in one of three ways. Every call of the network succeeds with a
  -- status of success, and the order manager is told the exchange id that the body holds; or they
  -- do, and the body holds none, and the order manager is told nothing; or they do not, and it is
  -- told of an error.
  pub complete_lem :
      (e : Ems) (s : Oms D) (req : OrderRequest D) (oid : Text) (n : Net)
      → e.rest_client.paper_mode ≡ false
      → (Succeeds n
          × ((x : Text) × (order_id_of parse n.body ≡ some x)
              × (complete parse e s req oid n ≡ on_order_ack s x oid)))
        ⊎ (Succeeds n × (order_id_of parse n.body ≡ none) × (complete parse e s req oid n ≡ s))
        ⊎ ((¬ Succeeds n) × ((m : Text) × (complete parse e s req oid n ≡ on_place_error s oid m)))
  unfolding settle
  complete_lem e s req oid n h = elim (Reply-cases (do_request n)) [
    | inr (m, q) ↦ inr (
        inr (
          λ v. absurd (bad m q ((do_request-Succeeds n n.body).1 (v, refl))),
          (m, complete-settle e s req oid n h ∙ ap (λ r. settle s oid (answer_of parse r)) q),
        ))
    | inl (b, q) ↦
        let v = ((do_request-Succeeds n b).0 q).0 in
        elim (Option-cases (order_id_of parse n.body)) [
          | inl bare ↦ inr (inl (v, bare, complete-parsed e s req oid n none h v bare))
          | inr (x, named) ↦ inl (v, (x, named, complete-parsed e s req oid n (some x) h v named))
        ]
  ]
    where
      bad : (m : Text) → do_request n ≡ error m → do_request n ≡ success n.body → ⊥
      bad m q r = cc
