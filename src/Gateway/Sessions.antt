-- ===== src/Gateway/Sessions.antt =====
-- Many requests at the gateway of gateway.go: arrivals, deliveries and timeouts in any order, and
-- dispatcher workers that pop meanwhile.
use mathlib.Core.List.{Perm, perm_middle}
use mathlib.Core.List.Perm
use llm_inference_control_pl.Common.{
  ℕ, zero, suc, ◌≡◌, refl, sym, subst, ap, ◌∙◌, Bool, true, false, List, [], ◌∷◌, ◌++◌, map, concat,
  Option, none, some, String, arith, length, leb, ◌&&◌, All, if◌then◌else◌,
}
use llm_inference_control_pl.Common.Http.{HttpRequest, Response}
use llm_inference_control_pl.Queue.{Request, Queue}
use llm_inference_control_pl.Gateway.{Gateway, notify, is_success}
use llm_inference_control_pl.Gateway.Begin.{World, Begun, answered, waiting, begin_inference}
use llm_inference_control_pl.Gateway.Finish.{Delivery, finish}
use llm_inference_control_pl.Gateway.Admission.{Began, queued, refused, begin_inference-Began}
use llm_inference_control_pl.Gateway.Reporting.{finish-notify, sampled}

-- A handler that waits: the number of its request in the order of arrival, the request and its estimate.
pub record Handler : Type 0 where
  pub number : ℕ
  pub request : Request
  pub estimated : Option ℕ

-- A handler that has returned: what it had queued, if it came so far, what the client got, and the
-- calls of the hook that it made.
pub record Ended : Type 0 where
  pub number : ℕ
  pub queued_request : Option Request
  pub response : Response
  pub calls : List (String × Bool)

-- The gateway, the handlers that wait, those that have returned, latest first, and the number of
-- inference requests so far.
pub record Session : Type 0 where
  pub gateway : Gateway
  pub handlers : List Handler
  pub ended : List Ended
  pub arrived : ℕ

abbrev pub opened : Gateway → Session
opened g = record { gateway = g; handlers = []; ended = []; arrived = 0 }

-- An inference request arrives; the n-th handler gets its delivery; workers change the queue.
pub data Event : Type 0 where
  arrives : ℕ → HttpRequest → Event
  ends : ℕ → Delivery → Event
  pops : (Queue → Queue) → Event

-- The n-th handler and the others.
abbrev pub take_handler : ℕ → List Handler → Option (Handler × List Handler)
take_handler n [] = none
take_handler zero (h ∷ hs) = some (h, hs)
take_handler (suc n) (h ∷ hs) =
    let rest = take_handler n hs in
    elim rest [ none ↦ none | some (x, others) ↦ some (x, h ∷ others) ]

-- The calls of the hook that were made since there were `before`.
abbrev new_calls : List (String × Bool) → List (String × Bool) → List (String × Bool)
new_calls before [] = []
new_calls before (c ∷ after) =
    let rest = new_calls before after in
    if leb (length (c ∷ after)) (length before) then [] else c ∷ rest

abbrev pub after_begin : Session → Gateway × Begun → Session
after_begin s (g, answered response) = record s {
  gateway = g;
  ended =
      record {
        number = s.arrived;
        queued_request = none;
        response = response;
        calls = new_calls s.gateway.hooked g.hooked;
      }
      ∷ s.ended;
  arrived = suc s.arrived;
}
after_begin s (g, waiting r estimated) = record s {
  gateway = g;
  handlers = record { number = s.arrived; request = r; estimated = estimated } ∷ s.handlers;
  arrived = suc s.arrived;
}

abbrev pub after_finish : Session → Handler → List Handler → Gateway × Response → Session
after_finish s h others (g, response) = record s {
  gateway = g;
  handlers = others;
  ended =
      record {
        number = h.number;
        queued_request = some h.request;
        response = response;
        calls = new_calls s.gateway.hooked g.hooked;
      }
      ∷ s.ended;
}

abbrev pub after_end : World → Session → Delivery → Option (Handler × List Handler) → Session
after_end w s d none = s
after_end w s d (some (h, others)) =
    after_finish s h others (finish w.floats h.request h.estimated d s.gateway)

unfoldable pub step : World → Session → Event → Session
step w s (arrives now req) = after_begin s (begin_inference w now req s.gateway)
step w s (ends n d) = after_end w s d (take_handler n s.handlers)
step w s (pops f) = record s { gateway = record s.gateway { queue = f s.gateway.queue } }

unfoldable pub run : World → Session → List Event → Session
run w s [] = s
run w s (e ∷ es) = run w (step w s e) es

-- The numbers of the first n requests.
abbrev pub numbers : ℕ → List ℕ
numbers zero = []
numbers (suc n) = n ∷ numbers n

-- The one call of a handler: it says success exactly if the status is 2xx, and if the handler had queued
-- its request, it names that request's model.
abbrev pub IsReported : Ended → Type 0
IsReported e = reported e.queued_request
  where
    reported : Option Request → Type 0
    reported none =
        (model : String) × (e.calls
          ≡ (model, leb 200 e.response.status && leb e.response.status 299) ∷ [])
    reported (some r) =
        e.calls ≡ (r.model, leb 200 e.response.status && leb e.response.status 299) ∷ []

abbrev pub number_of : Handler → ℕ
number_of h = h.number

abbrev pub ended_number : Ended → ℕ
ended_number e = e.number

abbrev pub calls_of : Ended → List (String × Bool)
calls_of e = e.calls

-- Every request that arrived has one handler, and every handler that returned has called the hook once.
pub record Accounted (s : Session) : Type 0 where
  pub hook_set : s.gateway.hook_set ≡ true
  pub each_once : Perm (map ended_number s.ended ++ map number_of s.handlers) (numbers s.arrived)
  pub reported : All IsReported s.ended
  pub no_other_calls : s.gateway.hooked ≡ concat (map calls_of s.ended)

no_calls : (xs : List (String × Bool)) → new_calls xs xs ≡ []
no_calls [] = refl
no_calls (x ∷ xs) = ground arith

one_call : (c : String × Bool) (xs : List (String × Bool)) → new_calls xs (c ∷ xs) ≡ c ∷ []
one_call c xs = ground (arith, no_calls xs)

notified :
    (model : String) (success : Bool) (g : Gateway)
    → g.hook_set ≡ true
    → (notify model success g).hooked ≡ (model, success) ∷ g.hooked
notified model success g h = rw h refl

notify-hook_set :
    (model : String) (success : Bool) (g : Gateway) → (notify model success g).hook_set ≡ g.hook_set
notify-hook_set model success g = ground arith

-- One handler is taken out.
abbrev Taken : List Handler → Option (Handler × List Handler) → Type 0
Taken hs none = Unit {0}
Taken hs (some (h, others)) = Perm (map number_of hs) (h.number ∷ map number_of others)

take_handler-Taken : (n : ℕ) (hs : List Handler) → Taken hs (take_handler n hs)
take_handler-Taken n [] = tt
take_handler-Taken zero (h ∷ hs) = Perm.refl _
take_handler-Taken (suc n) (h ∷ hs) = keep (take_handler n hs) (take_handler-Taken n hs)
  where
    keep :
        (o : Option (Handler × List Handler))
        → Taken hs o
        → Taken (h ∷ hs) (elim o [ none ↦ none | some (x, others) ↦ some (x, h ∷ others) ])
    keep none t = tt
    keep (some (x, others)) t =
        Perm.trans (Perm.cons h.number t) (Perm.swap x.number h.number (map number_of others))

-- The calls of a step that ends a handler with one call.
called :
    (before after : List (String × Bool)) (c : String × Bool)
    → after ≡ c ∷ before
    → new_calls before after ≡ c ∷ []
called before after c e = subst (λ xs. new_calls before xs ≡ c ∷ []) (sym e) (one_call c before)

-- The calls of all handlers, with those of one more.
counted :
    {before after new rest : List (String × Bool)} (c : String × Bool)
    → after ≡ c ∷ before
    → before ≡ rest
    → new ≡ c ∷ []
    → after ≡ new ++ rest
counted {rest} c once same calls =
    once
    ∙ ap (λ (xs : List (String × Bool)). c ∷ xs) same
    ∙ sym (ap (λ (xs : List (String × Bool)). xs ++ rest) calls)

module _ (w : World) where
  begin-Accounted :
      (s : Session) (now : ℕ) (req : HttpRequest) (o : Gateway × Begun)
      → Began w now req s.gateway o
      → Accounted s
      → Accounted (after_begin s o)
  begin-Accounted s now req o (refused g' model response _ hooked failed set) a =
      let once = hooked ∙ notified model false s.gateway a.hook_set in
      let calls = called s.gateway.hooked g'.hooked (model, false) once in
      record {
        hook_set = set ∙ a.hook_set;
        each_once = Perm.cons s.arrived a.each_once;
        reported = ((model, calls ∙ ap (λ (b : Bool). (model, b) ∷ []) (sym failed)), a.reported);
        no_other_calls = counted (model, false) once a.no_other_calls calls;
      }
  begin-Accounted s now req o (queued g' r estimated _ _ _ _ _ _ _ hooked set) a = record {
    hook_set = set ∙ a.hook_set;
    each_once =
        Perm.trans (perm_middle (map ended_number s.ended) (map number_of s.handlers))
          (Perm.cons s.arrived a.each_once);
    reported = a.reported;
    no_other_calls = hooked ∙ a.no_other_calls;
  }

  end-Accounted :
      (s : Session) (d : Delivery) (o : Option (Handler × List Handler))
      → Taken s.handlers o
      → Accounted s
      → Accounted (after_end w s d o)
  end-Accounted s d none t a = a
  end-Accounted s d (some (h, others)) t a =
      let r = h.request in
      let g : Gateway = record s.gateway { slo = sampled w.floats r.model d s.gateway.slo } in
      let ok = is_success (finish w.floats r h.estimated d s.gateway).1.status in
      let same = finish-notify w.floats r h.estimated s.gateway d in
      let once = ap (λ (x : Gateway). x.hooked) same ∙ notified r.model ok g a.hook_set in
      let calls = called s.gateway.hooked _ (r.model, ok) once in
      record {
        hook_set =
            ap (λ (x : Gateway). x.hook_set) same ∙ notify-hook_set r.model ok g ∙ a.hook_set;
        each_once =
            Perm.trans (Perm.symm (perm_middle (map ended_number s.ended) (map number_of others))) (
              Perm.trans (Perm.append (Perm.refl (map ended_number s.ended)) (Perm.symm t))
                a.each_once);
        reported = (calls, a.reported);
        no_other_calls = counted (r.model, ok) once a.no_other_calls calls;
      }

  step-Accounted : (s : Session) (e : Event) → Accounted s → Accounted (step w s e)
  unfolding step
  step-Accounted s (arrives now req) a =
      begin-Accounted s now req (begin_inference w now req s.gateway)
        (begin_inference-Began w now req s.gateway) a
  step-Accounted s (ends n d) a =
      end-Accounted s d (take_handler n s.handlers) (take_handler-Taken n s.handlers) a
  step-Accounted s (pops f) a = record {
    hook_set = a.hook_set;
    each_once = a.each_once;
    reported = a.reported;
    no_other_calls = a.no_other_calls;
  }

  run-Accounted : (s : Session) (es : List Event) → Accounted s → Accounted (run w s es)
  unfolding run
  run-Accounted s [] a = a
  run-Accounted s (e ∷ es) a = run-Accounted (step w s e) es (step-Accounted s e a)

  -- On a gateway whose hook is set and was not called before, whatever the order of arrivals,
  -- deliveries, timeouts and pops: the handlers that have returned and those that wait are, up to
  -- order, one for each inference request that arrived; each handler that has returned called the
  -- hook exactly once, with success exactly if its status is 2xx and, if it had queued its request,
  -- with the model of that request; and there are no other calls.
  pub run-hooked :
      (g : Gateway) (es : List Event)
      → g.hook_set ≡ true
      → g.hooked ≡ []
      → let s = run w (opened g) es in
        Perm (map ended_number s.ended ++ map number_of s.handlers) (numbers s.arrived)
        × All IsReported s.ended
        × (s.gateway.hooked ≡ concat (map calls_of s.ended))
  run-hooked g es set fresh =
      let start : Accounted (opened g) = record {
        hook_set = set;
        each_once = Perm.refl [];
        reported = tt;
        no_other_calls = fresh;
      } in
      let a = run-Accounted (opened g) es start in (a.each_once, a.reported, a.no_other_calls)
