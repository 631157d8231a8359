-- ===== src/Queue/Order.antt =====
-- The order of service: the queue as one list, oldest request of the highest priority first.
use mathlib.Core.List.{append_assoc, append-nil}
use llm_inference_control_pl.Common.{
  ℕ, zero, suc, ◌≤◌, ◌≡◌, refl, true, List, [], ◌∷◌, ◌++◌, Option, none, some, arith, ap, sym,
  subst, length, length-append, take, get_elem?-take, Option-cases, ◌<◌, get_elem?, inl, inr,
}
use llm_inference_control_pl.Queue.{
  Priority, high, normal, low, Request, Queue, lane, set_lane, try_push, try_pop_highest_priority,
  ahead_of,
}

-- The requests in the order in which a single worker gets them.
abbrev pub pending : Queue → List Request
pending q = q.high_lane.buf ++ (q.normal_lane.buf ++ q.low_lane.buf)

-- A fast-path pop takes the first request of `pending`, and finds none exactly when there is none.
abbrev pub Pops : List Request → Option (Request × Queue) → Type 0
Pops xs none = xs ≡ []
Pops xs (some (r, q)) = xs ≡ r ∷ pending q

Pops-lists :
    (hs ns ls : List Request) (ch cn cl : ℕ)
    → let q : Queue = record {
      high_lane = record { buf = hs; cap = ch };
      normal_lane = record { buf = ns; cap = cn };
      low_lane = record { buf = ls; cap = cl };
    } in
      Pops (pending q) (try_pop_highest_priority q)
unfolding try_pop_highest_priority
Pops-lists (h ∷ hs) ns ls ch cn cl = refl
Pops-lists [] (n ∷ ns) ls ch cn cl = refl
Pops-lists [] [] (l ∷ ls) ch cn cl = refl
Pops-lists [] [] [] ch cn cl = refl

pub try_pop-Pops : (q : Queue) → Pops (pending q) (try_pop_highest_priority q)
try_pop-Pops q =
    Pops-lists q.high_lane.buf q.normal_lane.buf q.low_lane.buf q.high_lane.cap q.normal_lane.cap
      q.low_lane.cap

-- The requests that a new one of priority `p` has to wait for, and those that wait for it.
abbrev before : Queue → Priority → List Request
before q high = q.high_lane.buf
before q normal = q.high_lane.buf ++ q.normal_lane.buf
before q low = q.high_lane.buf ++ (q.normal_lane.buf ++ q.low_lane.buf)

abbrev behind : Queue → Priority → List Request
behind q high = q.normal_lane.buf ++ q.low_lane.buf
behind q normal = q.low_lane.buf
behind q low = []

-- A stable insertion: behind the first `n` entries.
abbrev pub insert_at : ℕ → Request → List Request → List Request
insert_at zero r xs = r ∷ xs
insert_at (suc n) r [] = r ∷ []
insert_at (suc n) r (x ∷ xs) = x ∷ insert_at n r xs

insert_at-append :
    (xs ys : List Request) (r : Request) → insert_at (length xs) r (xs ++ ys) ≡ xs ++ r ∷ ys
insert_at-append [] ys r = refl
insert_at-append (x ∷ xs) ys r = ap (λ (zs : List Request). x ∷ zs) (insert_at-append xs ys r)

pub get_elem?-insert_at :
    (n : ℕ) (r : Request) (xs : List Request)
    → n ≤ length xs
    → get_elem? (insert_at n r xs) n ≡ some r
get_elem?-insert_at zero r xs h = refl
get_elem?-insert_at (suc n) r [] h = elim h [ ]
get_elem?-insert_at (suc n) r (x ∷ xs) h = get_elem?-insert_at n r xs (omega arith)

abbrev pub pushed : Queue → Request → Priority → Queue
pushed q r p = set_lane q p (record (lane q p) { buf = (lane q p).buf ++ r ∷ [] })

-- What an accepted push leaves.
pub try_push-eq_pushed :
    (q : Queue) (r : Request) (p : Priority)
    → r.priority ≡ p
    → (try_push q r).1 ≡ true
    → (try_push q r).0 ≡ pushed q r p
unfolding try_push
try_push-eq_pushed q r high e h = ground arith
try_push-eq_pushed q r normal e h = ground arith
try_push-eq_pushed q r low e h = ground arith

ahead_of-eq : (q : Queue) (p : Priority) → ahead_of q p ≡ length (before q p)
unfolding ahead_of
ahead_of-eq q high = omega arith
ahead_of-eq q normal = omega (arith, length-append q.high_lane.buf q.normal_lane.buf)
ahead_of-eq q low = omega (
  arith,
  length-append q.high_lane.buf (q.normal_lane.buf ++ q.low_lane.buf),
  length-append q.normal_lane.buf q.low_lane.buf,
)

pending-pushed :
    (q : Queue) (r : Request) (p : Priority) → pending (pushed q r p) ≡ before q p ++ r ∷ behind q p
pending-pushed q r high = simp append_assoc
pending-pushed q r normal = simp append_assoc
pending-pushed q r low = simp append_assoc

pending-split : (q : Queue) (p : Priority) → pending q ≡ before q p ++ behind q p
pending-split q high = refl
pending-split q normal = simp append_assoc
pending-split q low = simp append-nil

-- An accepted request is inserted into the order of service behind exactly the AheadOf requests
-- counted before the push, and no other request changes its place.
pub pending-try_push :
    (q : Queue) (r : Request)
    → (try_push q r).1 ≡ true
    → pending (try_push q r).0 ≡ insert_at (ahead_of q r.priority) r (pending q)
pending-try_push q r h =
    rw
      (
        try_push-eq_pushed q r r.priority refl h,
        pending-pushed q r r.priority,
        ahead_of-eq q r.priority,
        pending-split q r.priority,
      )
      (sym (insert_at-append (before q r.priority) (behind q r.priority) r))

pub ahead_of-le-length : (q : Queue) (p : Priority) → ahead_of q p ≤ length (pending q)
ahead_of-le-length q p =
    omega (
      arith,
      ahead_of-eq q p,
      ap length (pending-split q p),
      length-append (before q p) (behind q p),
    )

-- A worker that pops `n` times while nothing is pushed, and what it gets.
unfoldable pub pop_many : ℕ → Queue → List Request
pop_many zero q = []
pop_many (suc n) q = elim (try_pop_highest_priority q) [
  | none ↦ []
  | some (r, q') ↦ r ∷ pop_many n q'
]

pub take_all : (n : ℕ) (xs : List Request) → length xs ≤ n → take n xs ≡ xs
take_all zero [] h = refl
take_all zero (x ∷ xs) h = elim h [ ]
take_all (suc n) [] h = refl
take_all (suc n) (x ∷ xs) h = ap (λ (ys : List Request). x ∷ ys) (take_all n xs (omega arith))

pub pop_many-eq-take : (n : ℕ) (q : Queue) → pop_many n q ≡ take n (pending q)
unfolding pop_many
pop_many-eq-take zero q = refl
pop_many-eq-take (suc n) q = elim (Option-cases (try_pop_highest_priority q)) [
  | inl e ↦
      let empty : pending q ≡ [] = subst (Pops (pending q)) e (try_pop-Pops q) in
      rw (e, pop_many) (rw empty)
  | inr ((r, q'), e) ↦
      let first : pending q ≡ r ∷ pending q' = subst (Pops (pending q)) e (try_pop-Pops q) in
      rw (e, pop_many) (rw first (ap (λ (xs : List Request). r ∷ xs) (pop_many-eq-take n q')))
]

-- If TryPush accepts a request, a worker that then pops while nothing else is pushed gets it after
-- exactly as many other requests as AheadOf counted before the push.
pub served_after_ahead :
    (q : Queue) (r : Request) (n : ℕ)
    → (try_push q r).1 ≡ true
    → ahead_of q r.priority < n
    → get_elem? (pop_many n (try_push q r).0) (ahead_of q r.priority) ≡ some r
served_after_ahead q r n h lt =
    rw (pop_many-eq-take n (try_push q r).0, get_elem?-take _ n _ lt, pending-try_push q r h)
      (get_elem?-insert_at _ r (pending q) (ahead_of-le-length q r.priority))
