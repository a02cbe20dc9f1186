-- ===== src/Reactor/Woken.antt =====
-- The tasks that were woken, in order, and whether one is among them.
use romio.Base.{◌≡◌, ◌⊎◌, inl, inr, Option, none, some, List, [], ◌∷◌, ◌++◌, arith, Waker}
use romio.Reactor.Dispatch.{wake_option}

-- The task is among those woken.
abbrev pub Woken : Waker → List Waker → Type 0
Woken w [] = ⊥
Woken w (x ∷ xs) = (x ≡ w) ⊎ Woken w xs

pub Woken-append_right : (w : Waker) (xs ys : List Waker) → Woken w ys → Woken w (xs ++ ys)
Woken-append_right w [] ys h = h
Woken-append_right w (x ∷ xs) ys h = inr (Woken-append_right w xs ys h)

pub Woken-append_left : (w : Waker) (xs ys : List Waker) → Woken w xs → Woken w (xs ++ ys)
Woken-append_left w [] ys h = absurd h
Woken-append_left w (x ∷ xs) ys (inl e) = inl e
Woken-append_left w (x ∷ xs) ys (inr h) = inr (Woken-append_left w xs ys h)

pub Woken-wake_option : (w : Waker) (o : Option Waker) → o ≡ some w → Woken w (wake_option o)
Woken-wake_option w none e = ground arith
Woken-wake_option w (some x) e = inl (ground arith)
