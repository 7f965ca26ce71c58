-- ===== src/Transport/Rest/Replies.antt =====
-- cpp/transport/upstox_rest_client.cpp: when a request succeeds.
use quantforge_engine.Prelude.{
  ◌≤◌, ◌<◌, ◌≡◌, ◌↔◌, refl, Bool, true, false, Option, none, some, arith, if◌then◌else◌,
}
use quantforge_engine.Prelude.Text.{Text, codes}
use quantforge_engine.Transport.Rest.{
  Net, Reply, success, error, unless_error, on_response, on_written, on_joined, do_request,
}

-- Every call of the network succeeded, and the status is one of success.
pub record Succeeds (n : Net) : Type 0 where
  pub found : n.resolve ≡ none
  pub named : n.sni ≡ true
  pub joined : n.connect ≡ none
  pub secured : n.handshake ≡ none
  pub written : n.write ≡ none
  pub answered : n.read ≡ none
  pub low : 200 ≤ n.status
  pub high : n.status < 300

-- What an inner handler answers is the outer one's answer exactly if that has no error.
unless_error_iff :
    (o : Option Text) (prefix b : Text) (r : Reply)
    → (unless_error o prefix r ≡ success b) ↔ ((o ≡ none) × (r ≡ success b))
unless_error_iff none prefix b r = (λ h. (refl, h), λ h. h.1)
unless_error_iff (some m) prefix b r = (λ h. absurd (cc), λ h. absurd (cc (h.0)))

on_response_iff :
    (n : Net) (b : Text)
    → (on_response n ≡ success b) ↔ ((200 ≤ n.status) × (n.status < 300) × (b ≡ n.body))
unfolding on_response
on_response_iff n b = ground arith

sni_iff :
    (sni : Bool) (r : Reply) (b : Text)
    → (if sni then r else error (codes "SSL SNI failed")) ≡ success b
    → (sni ≡ true) × (r ≡ success b)
sni_iff true r b h = (refl, h)
sni_iff false r b h = absurd (cc)

-- The success callback is called exactly if every call of the network succeeded and the status is
-- from 200 to 299, and then with the body of the response.
pub do_request-Succeeds :
    (n : Net) (b : Text) → (do_request n ≡ success b) ↔ (Succeeds n × (b ≡ n.body))
unfolding do_request on_joined on_written
do_request-Succeeds n b = (λ h. forth h, λ h. back h.0 h.1)
  where
    back : Succeeds n → b ≡ n.body → do_request n ≡ success b
    back v e = (unless_error_iff n.resolve _ b _).1 (
      v.found,
      rw v.named (
          (unless_error_iff n.connect _ b _).1 (
            v.joined,
            (unless_error_iff n.handshake _ b _).1 (
              v.secured,
              (unless_error_iff n.write _ b _).1 (
                v.written,
                (unless_error_iff n.read _ b _).1
                    (v.answered, (on_response_iff n b).1 (v.low, v.high, e)),
              ),
            ),
          )),
    )

    forth : do_request n ≡ success b → Succeeds n × (b ≡ n.body)
    forth h =
        let r = (unless_error_iff n.resolve _ b _).0 h in
        let k = sni_iff n.sni _ b r.1 in
        let c = (unless_error_iff n.connect _ b _).0 k.1 in
        let t = (unless_error_iff n.handshake _ b _).0 c.1 in
        let w = (unless_error_iff n.write _ b _).0 t.1 in
        let a = (unless_error_iff n.read _ b _).0 w.1 in
        let z = (on_response_iff n b).0 a.1 in
        (
          record {
            found = r.0;
            named = k.0;
            joined = c.0;
            secured = t.0;
            written = w.0;
            answered = a.0;
            low = z.0;
            high = z.1;
          },
          z.2,
        )
