-- ===== src/Gateway/Keys.antt =====
-- The key store of gateway.go over many requests: who waits, whatever came before.
use llm_inference_control_pl.Common.{
  ℕ, ◌≡◌, refl, ap, ◌∙◌, Bool, false, List, [], ◌∷◌, Option, none, some, String, arith,
}
use llm_inference_control_pl.Common.Http.{HttpRequest}
use llm_inference_control_pl.Queue.{Request}
use llm_inference_control_pl.Gateway.{Gateway, notify}
use llm_inference_control_pl.Gateway.Begin.{
  World, Begun, answered, waiting, Checked, passed, rejected, push, begin_decoded, begin_body,
  begin_checked, begin_inference, authenticate,
}
use llm_inference_control_pl.Gateway.Finish.{Delivery}
use llm_inference_control_pl.Gateway.Admission.{store-Keeps}
use llm_inference_control_pl.Gateway.Reporting.{finish-notify, sampled}
use llm_inference_control_pl.Gateway.Sessions.{
  Handler, Session, Event, arrives, ends, pops, take_handler, step, run, after_begin, after_end,
}

notify-key_store :
    (model : String) (success : Bool) (g : Gateway)
    → (notify model success g).key_store ≡ g.key_store
notify-key_store model success g = ground arith

push-key_store :
    (r : Request) (estimated : Option ℕ) (g : Gateway)
    → (push r estimated g).0.key_store ≡ g.key_store
push-key_store r estimated g = ground arith

module _ (w : World) (now : ℕ) (req : HttpRequest) where
  decoded-key_store :
      (key_id : String) (body : List ℕ) (o : Option (String × Bool)) (g : Gateway)
      → (begin_decoded w now req key_id body o g).0.key_store ≡ g.key_store
  decoded-key_store key_id body none g = notify-key_store "" _ g
  decoded-key_store key_id body (some (model, stream)) g = ground arith

  body-key_store :
      (key_id : String) (o : Option (List ℕ)) (g : Gateway)
      → (begin_body w now req key_id o g).0.key_store ≡ g.key_store
  body-key_store key_id none g = notify-key_store "" _ g
  body-key_store key_id (some body) g = decoded-key_store key_id body (w.decode body) g

  checked-key_store :
      (o : Gateway × Checked) → (begin_checked w now req o).0.key_store ≡ o.0.key_store
  checked-key_store (g, rejected response) = notify-key_store "" _ g
  checked-key_store (g, passed key_id) = body-key_store key_id req.body g

  begin-key_store : (g : Gateway) → (begin_inference w now req g).0.key_store ≡ g.key_store
  unfolding begin_inference authenticate
  begin-key_store g = ground (
    arith,
    checked-key_store (authenticate now req g)
        ∙ ap (λ (x : Gateway). x.key_store) (store-Keeps w now req g g.key_store),
    notify-key_store "" false g,
  )

module _ (w : World) where
  end-key_store :
      (s : Session) (d : Delivery) (o : Option (Handler × List Handler))
      → (after_end w s d o).gateway.key_store ≡ s.gateway.key_store
  end-key_store s d none = refl
  end-key_store s d (some (h, others)) =
      let g : Gateway = record s.gateway {
        slo = sampled w.floats h.request.model d s.gateway.slo;
      } in
      ap (λ (x : Gateway). x.key_store) (finish-notify w.floats h.request h.estimated s.gateway d)
      ∙ notify-key_store h.request.model _ g

  begun-key_store :
      (s : Session) (o : Gateway × Begun) → (after_begin s o).gateway.key_store ≡ o.0.key_store
  begun-key_store s (g, answered response) = refl
  begun-key_store s (g, waiting r estimated) = refl

  step-key_store : (s : Session) (e : Event) → (step w s e).gateway.key_store ≡ s.gateway.key_store
  unfolding step
  step-key_store s (arrives now req) =
      begun-key_store s (begin_inference w now req s.gateway) ∙ begin-key_store w now req s.gateway
  step-key_store s (ends n d) = end-key_store s d (take_handler n s.handlers)
  step-key_store s (pops f) = refl

  -- No request changes the key store.
  pub run-key_store :
      (s : Session) (es : List Event) → (run w s es).gateway.key_store ≡ s.gateway.key_store
  unfolding run
  run-key_store s [] = refl
  run-key_store s (e ∷ es) = run-key_store (step w s e) es ∙ step-key_store s e
