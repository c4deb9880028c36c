-- ===== src/Virtinjectd/Proxy/Accept.antt =====
-- `Proxy.Run`: which connections are served.
use dra_driver_integration_e.Base.{
  ◌≡◌, refl, ap, ◌∙◌, true, false, List, [], ◌∷◌, ◌++◌, append-nil, arith, Result, ok, err,
}
use dra_driver_integration_e.Virtinjectd.Protocol.{GoError}
use dra_driver_integration_e.Virtinjectd.Proxy.{is_connection_closed, accept_loop}

-- The connections among the outcomes.
abbrev pub accepted : {C : Type 0} → List (Result GoError C) → List C
accepted [] = []
accepted (ok conn ∷ outcomes) = conn ∷ accepted outcomes
accepted (err e ∷ outcomes) = accepted outcomes

-- No outcome ends the loop.
abbrev pub GoesOn : {C : Type 0} → List (Result GoError C) → Type 0
GoesOn [] = Unit
GoesOn (ok conn ∷ outcomes) = GoesOn outcomes
GoesOn (err e ∷ outcomes) = (is_connection_closed e ≡ false) × GoesOn outcomes

module _ {C : Type 0} where
  accept_loop-append :
      (front rest : List (Result GoError C))
      → GoesOn front
      → accept_loop (front ++ rest) ≡ (accepted front ++ (accept_loop rest).0, (accept_loop rest).1)
  unfolding accept_loop
  accept_loop-append [] rest h = refl
  accept_loop-append (ok conn ∷ front) rest h = rw (accept_loop-append front rest h) refl
  accept_loop-append (err e ∷ front) rest (live, h) =
      ground (arith, accept_loop-append front rest h)

  -- Up to the error of a closed listener each connection that is accepted is served, in order and
  -- whatever other errors come between them; then the loop returns, and serves none that would
  -- follow.
  pub accept_loop_lem :
      (front rest : List (Result GoError C)) (e : GoError)
      → GoesOn front
      → is_connection_closed e ≡ true
      → accept_loop (front ++ (err e ∷ rest)) ≡ (accepted front, true)
  unfolding accept_loop
  accept_loop_lem front rest e h closed =
      let stop : accept_loop (err e ∷ rest) ≡ ([], true) = ground arith in
      accept_loop-append front (err e ∷ rest) h
      ∙ ap (λ r. (accepted front ++ r.0, r.1)) stop
      ∙ ap (λ conns. (conns, true)) (append-nil (accepted front))
