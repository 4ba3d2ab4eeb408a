-- ===== src/Platform/Metrics.antt =====
-- metrics.go and metrics/middleware.go. A vector of counters is a function of its labels; of the
-- histogram of durations only the number of observations is kept.
use distributed_order_proces.Base.{
  ℕ, suc, ◌-◌, String, Bool, Option, none, some, ◌&&◌, ◌||◌, ◌==◌, leb, str_eq, if◌then◌else◌,
}

pub record Metrics : Type 0 where
  pub requests_total : String → String → ℕ → ℕ
  pub request_duration : String → String → ℕ
  pub errors_total : String → String → String → ℕ
  pub in_flight : ℕ

abbrev pub new_metrics : Metrics
new_metrics = record {
  requests_total = λ route method status. 0;
  request_duration = λ route method. 0;
  errors_total = λ route method class. 0;
  in_flight = 0;
}

-- What the middleware reads of a request: the path, the pattern that chi has matched (`none` without
-- a route context), and the method.
pub record Visit : Type 0 where
  pub path : String
  pub matched : Option String
  pub method : String

abbrev pub named_route : Option String → String
named_route none = "unmatched"
named_route (some pattern) = if str_eq pattern "" then "unmatched" else pattern

unfoldable pub route_pattern : Visit → String
route_pattern v = named_route v.matched

unfoldable pub is_probe : String → Bool
is_probe path = str_eq path "/livez" || str_eq path "/readyz"

-- A handler that wrote no header has answered 200.
abbrev pub written_status : ℕ → ℕ
written_status status = if status == 0 then 200 else status

abbrev pub count_request : String → String → ℕ → Metrics → Metrics
count_request route method status m = record m {
  requests_total = λ r n s.
      if str_eq route r && str_eq method n && status == s
      then suc (m.requests_total r n s)
      else m.requests_total r n s;
  request_duration = λ r n.
      if str_eq route r && str_eq method n
      then suc (m.request_duration r n)
      else m.request_duration r n;
}

abbrev pub count_error : String → String → String → Metrics → Metrics
count_error route method class m = record m {
  errors_total = λ r n c.
      if str_eq route r && str_eq method n && str_eq class c
      then suc (m.errors_total r n c)
      else m.errors_total r n c;
}

abbrev pub count_class : String → String → ℕ → Metrics → Metrics
count_class route method status m =
    if leb 500 status
    then count_error route method "server" m
    else if leb 400 status
    then count_error route method "client" m
    else m

-- Before the handler.
unfoldable pub started : Visit → Metrics → Metrics
unfolding is_probe
started v m = if is_probe v.path then m else record m { in_flight = suc m.in_flight }

-- After the handler, with the status it wrote; `none` is a handler that panicked, of which only the
-- deferred call is left.
abbrev pub after_handler : Visit → Option ℕ → Metrics → Metrics
after_handler v none m = record m { in_flight = m.in_flight - 1 }
after_handler v (some status) m =
    let route = route_pattern v in
    let m' =
      count_class route v.method (written_status status)
        (count_request route v.method (written_status status) m) in
    record m' { in_flight = m'.in_flight - 1 }

unfoldable pub finished : Visit → Option ℕ → Metrics → Metrics
unfolding is_probe route_pattern
finished v status m = if is_probe v.path then m else after_handler v status m

-- The middleware around a handler on any state.
unfoldable pub middleware :
    {S : Type 0} → (S → Option ℕ × S) → Visit → S × Metrics → Option ℕ × S × Metrics
unfolding started finished
middleware next v (s, m) =
    let (status, s') = next s in (status, s', finished v status (started v m))
