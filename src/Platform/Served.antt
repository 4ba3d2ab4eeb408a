-- ===== src/Platform/Served.antt =====
-- What the metrics say of the requests served, however these overlap.
use distributed_order_proces.Base.{
  refl, ℕ, ◌+◌, ◌≡◌, String, Bool, Option, none, some, ◌&&◌, ◌||◌, ◌==◌, not, leb, str_eq,
  if◌then◌else◌, List, [], ◌∷◌, ◌++◌, arith, Bool-cases, inl, inr, ◌∙◌,
}
use distributed_order_proces.Base.Lists.{count_if}
use distributed_order_proces.Platform.Metrics.{
  Metrics, new_metrics, Visit, route_pattern, is_probe, written_status, count_request, count_class,
  started, finished,
}

-- A visit that was answered, and the status that the client saw.
pub record Answer : Type 0 where
  pub visit : Visit
  pub status : ℕ

-- The status that the client sees: net/http sends 200 where a handler wrote none, which is 0 here.
abbrev pub seen : ℕ → ℕ
seen status = if status == 0 then 200 else status

-- Requests that come in, are answered or panic, one step at a time in any order: those in flight,
-- those answered, and the metrics.
pub data Serving : List Visit → List Answer → Metrics → Type 0 where
  idle : Serving [] [] new_metrics
  enters :
      {flight : List Visit} {done : List Answer} {m : Metrics} (v : Visit)
      → Serving flight done m
      → Serving (v ∷ flight) done (started v m)
  answers :
      (before after : List Visit) {done : List Answer} {m : Metrics} (v : Visit) (status : ℕ)
      → Serving (before ++ v ∷ after) done m
      → Serving
          (before ++ after)
          (record { visit = v; status = seen status } ∷ done)
          (finished v (some status) m)
  panics :
      (before after : List Visit) {done : List Answer} {m : Metrics} (v : Visit)
      → Serving (before ++ v ∷ after) done m
      → Serving (before ++ after) done (finished v none m)

-- The two health endpoints.
abbrev pub is_health_check : Visit → Bool
is_health_check v = str_eq v.path "/livez" || str_eq v.path "/readyz"

abbrev pub is_counted : Visit → Bool
is_counted v = not (is_health_check v)

-- The route as chi knows it, one name for all requests that have none.
abbrev pub label : Option String → String
label none = "unmatched"
label (some pattern) = if str_eq pattern "" then "unmatched" else pattern

abbrev pub is_on : String → String → Answer → Bool
is_on route method a =
    is_counted a.visit && str_eq (label a.visit.matched) route && str_eq a.visit.method method

-- The metrics tell the truth about the requests in flight and those answered.
pub record Tells (flight : List Visit) (done : List Answer) (m : Metrics) : Type 0 where
  pub flying : m.in_flight ≡ count_if is_counted flight
  pub requests :
      (route method : String) (status : ℕ)
      → m.requests_total route method status
        ≡ count_if (λ a. is_on route method a && a.status == status) done
  pub server_errors :
      (route method : String)
      → m.errors_total route method "server"
        ≡ count_if (λ a. is_on route method a && leb 500 (a.status)) done
  pub client_errors :
      (route method : String)
      → m.errors_total route method "client"
        ≡ count_if
            (λ a. is_on route method a && leb 400 (a.status) && not (leb 500 (a.status)))
            done

one_less :
    (before after : List Visit) (v : Visit)
    → count_if is_counted (before ++ v ∷ after)
      ≡ (if is_counted v then 1 else 0) + count_if is_counted (before ++ after)
one_less [] after v = refl
one_less (x ∷ before) after v = omega (arith, one_less before after v)

started-Tells :
    (v : Visit) (flight : List Visit) (done : List Answer) (m : Metrics)
    → Tells flight done m
    → Tells (v ∷ flight) done (started v m)
unfolding started is_probe
started-Tells v flight done m t = elim (Bool-cases (is_health_check v)) [
  | inl probe ↦ rw probe (record {
    flying = rw probe (t.flying ∙ omega arith);
    requests = t.requests;
    server_errors = t.server_errors;
    client_errors = t.client_errors;
  })
  | inr counted ↦ rw counted (record {
    flying = rw counted (omega (arith, t.flying));
    requests = t.requests;
    server_errors = t.server_errors;
    client_errors = t.client_errors;
  })
]

panicked-Tells :
    (before after : List Visit) (v : Visit) (done : List Answer) (m : Metrics)
    → Tells (before ++ v ∷ after) done m
    → Tells (before ++ after) done (finished v none m)
unfolding finished is_probe route_pattern
panicked-Tells before after v done m t =
    let less = t.flying ∙ one_less before after v in
    elim (Bool-cases (is_health_check v)) [
      | inl probe ↦ rw probe (record {
        flying = (rw probe at less) ∙ omega arith;
        requests = t.requests;
        server_errors = t.server_errors;
        client_errors = t.client_errors;
      })
      | inr counted ↦
          let less' : m.in_flight ≡ 1 + count_if is_counted (before ++ after) =
            (rw counted at less) in
          rw counted (record {
            flying = omega (arith, less');
            requests = t.requests;
            server_errors = t.server_errors;
            client_errors = t.client_errors;
          })
    ]

-- What counting the class of a status does.
count_class-in_flight :
    (route method : String) (status : ℕ) (m : Metrics)
    → (count_class route method status m).in_flight ≡ m.in_flight
count_class-in_flight route method status m = ground arith

count_class-requests_total :
    (route method : String) (status : ℕ) (m : Metrics) (r n : String) (s : ℕ)
    → (count_class route method status m).requests_total r n s ≡ m.requests_total r n s
count_class-requests_total route method status m r n s = ground arith

count_class-server :
    (route method : String) (status : ℕ) (m : Metrics) (r n : String)
    → (count_class route method status m).errors_total r n "server"
      ≡ (if str_eq route r && str_eq method n && leb 500 status then 1 else 0)
        + m.errors_total r n "server"
count_class-server route method status m r n = ground arith

count_class-client :
    (route method : String) (status : ℕ) (m : Metrics) (r n : String)
    → (count_class route method status m).errors_total r n "client"
      ≡ (if str_eq route r && str_eq method n && leb 400 status && not (leb 500 status)
          then 1
          else 0)
        + m.errors_total r n "client"
count_class-client route method status m r n = ground arith

answered-Tells :
    (before after : List Visit) (v : Visit) (status : ℕ) (done : List Answer) (m : Metrics)
    → Tells (before ++ v ∷ after) done m
    → Tells
        (before ++ after)
        (record { visit = v; status = seen status } ∷ done)
        (finished v (some status) m)
unfolding finished is_probe route_pattern
answered-Tells before after v status done m t =
    let less = t.flying ∙ one_less before after v in
    elim (Bool-cases (is_health_check v)) [
      | inl probe ↦ rw probe (record {
        flying = (rw probe at less) ∙ omega arith;
        requests = λ r n s. rw probe (t.requests r n s ∙ omega arith);
        server_errors = λ r n. rw probe (t.server_errors r n ∙ omega arith);
        client_errors = λ r n. rw probe (t.client_errors r n ∙ omega arith);
      })
      | inr counted ↦
          let less' : m.in_flight ≡ 1 + count_if is_counted (before ++ after) =
            (rw counted at less) in
          let route = route_pattern v in
          let st = written_status status in
          let m' = count_request route v.method st m in
          rw counted (record {
            flying = omega (arith, count_class-in_flight route v.method st m', less');
            requests = λ r n s.
                count_class-requests_total route v.method st m' r n s
                ∙ ground (arith, t.requests r n s);
            server_errors = λ r n.
                count_class-server route v.method st m' r n ∙ ground (arith, t.server_errors r n);
            client_errors = λ r n.
                count_class-client route v.method st m' r n ∙ ground (arith, t.client_errors r n);
          })
    ]

-- At every moment, however requests overlap and whichever handlers panic, the gauge is the number of
-- requests in flight, and each counter is the number of requests answered so far with its route,
-- method and status, or class of statuses: the pattern that chi has matched, or "unmatched", and the
-- status that the client saw. Requests for /livez and /readyz are left out.
pub Serving-Tells :
    {flight : List Visit} {done : List Answer} {m : Metrics}
    → Serving flight done m
    → Tells flight done m
Serving-Tells idle = record {
  flying = refl;
  requests = λ route method status. refl;
  server_errors = λ route method. refl;
  client_errors = λ route method. refl;
}
Serving-Tells (enters {flight = flight} {done = done} {m = m} v run) =
    started-Tells v flight done m (Serving-Tells run)
Serving-Tells (answers before after {done = done} {m = m} v status run) =
    answered-Tells before after v status done m (Serving-Tells run)
Serving-Tells (panics before after {done = done} {m = m} v run) =
    panicked-Tells before after v done m (Serving-Tells run)
