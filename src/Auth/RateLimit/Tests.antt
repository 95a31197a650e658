-- ===== src/Auth/RateLimit/Tests.antt =====
-- A limiter of two attempts in ten ticks.
use zero_node.Prelude.{◌≤◌, [], ◌∷◌, arith}
use zero_node.Auth.RateLimit.{check}
use zero_node.Auth.RateLimit.Bounded.{stop, called, admitted, admitted-le-limit}

-- The third attempt is refused, and the fourth comes when the first has left the window.
admitted-le-limit_example :
    admitted 10 13 "ip:a" (("ip:a", 12) ∷ ("ip:a", 5) ∷ ("ip:a", 1) ∷ []) ≤ 2
unfolding check
admitted-le-limit_example =
    admitted-le-limit {limit = 2} {window = 10} {last = 12} "ip:a" 13
      (called {now = 0} "ip:a" 1 (omega arith) (
        called "ip:a" 5 (omega arith)
          (called "ip:a" 9 (omega arith) (called "ip:a" 12 (omega arith) stop))))
      (omega arith)
