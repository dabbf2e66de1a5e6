-- ===== src/Framework/Handler/Order.antt =====
-- The order in which middleware wraps a handler.
use quicframe.Prelude.{◌≡◌, refl, List, [], ◌∷◌, ◌++◌, sym, ◌∙◌, ap}
use mathlib.Core.List.{reverse, reverse-cons}
use quicframe.Framework.Handler.{HandlerFunc, MiddlewareFunc, wrap_each, apply_middleware}

module _ {H : Type 0} where
  wrap_each-append :
      (h : HandlerFunc H) (ms : List (MiddlewareFunc H)) (m : MiddlewareFunc H)
      → wrap_each h (ms ++ m ∷ []) ≡ m (wrap_each h ms)
  unfolding wrap_each
  wrap_each-append h [] m = refl
  wrap_each-append h (k ∷ ms) m = wrap_each-append (k h) ms m

  pub apply_middleware-cons :
      (h : HandlerFunc H) (m : MiddlewareFunc H) (ms : List (MiddlewareFunc H))
      → apply_middleware h (m ∷ ms) ≡ m (apply_middleware h ms)
  unfolding apply_middleware
  apply_middleware-cons h m ms = rw (reverse-cons) (wrap_each-append h (reverse ms) m)

  pub apply_middleware-nil : (h : HandlerFunc H) → apply_middleware h [] ≡ h
  unfolding apply_middleware
  apply_middleware-nil h = refl

  -- Wrapping by a list that is followed by another is wrapping by the other and then by the list.
  pub apply_middleware-append :
      (h : HandlerFunc H) (outer inner : List (MiddlewareFunc H))
      → apply_middleware h (outer ++ inner) ≡ apply_middleware (apply_middleware h inner) outer
  apply_middleware-append h [] inner = sym (apply_middleware-nil (apply_middleware h inner))
  apply_middleware-append h (m ∷ ms) inner =
      apply_middleware-cons h m (ms ++ inner)
      ∙ ap m (apply_middleware-append h ms inner)
      ∙ sym (apply_middleware-cons (apply_middleware h inner) m ms)

  -- The first middleware of a list is the outermost wrapper, and middleware registered later wraps
  -- further inside: two lists in a row wrap by the second list first and then by the first.
  pub apply_middleware_lem :
      (h : HandlerFunc H) (m : MiddlewareFunc H) (outer inner : List (MiddlewareFunc H))
      → (apply_middleware h (m ∷ inner) ≡ m (apply_middleware h inner))
        × (apply_middleware h (outer ++ inner) ≡ apply_middleware (apply_middleware h inner) outer)
  apply_middleware_lem h m outer inner =
      (apply_middleware-cons h m inner, apply_middleware-append h outer inner)
