-- ===== src/Prelude/Triple.antt =====
-- What a handler keeps of its session, and what it says of its answer.
use mathlib.Core.Path.{subst}
use market_place_app.Prelude.Session.{Tx, Session, Result, ok, err, ◌>>=◌, bind_rule}

-- A property of the answer, if there is one.
abbrev pub IfOk {ℓ κ} : {E A : Type ℓ} → (A → Type κ) → Result E A → Type κ
IfOk P (ok a) = P a
IfOk P (err e) = Unit

module _ {D W E : Type 0} (I : Session D W → Type 0) where
  -- From a session with `I`, the handler leaves one with `I`, and answers with `Q`.
  abbrev pub Triple : {A : Type 0} → Tx D W E A → (A → Type 0) → Type 0
  Triple m Q = (s : Session D W) → I s → I (m s).1 × IfOk Q (m s).0

  pub Triple-bind :
      {A B : Type 0} (m : Tx D W E A) (f : A → Tx D W E B) (Q : A → Type 0) (R : B → Type 0)
      → Triple m Q
      → ((a : A) → Q a → Triple (f a) R)
      → Triple (m >>= f) R
  Triple-bind {A} {B} m f Q R h k s i =
      let P : Result E B × Session D W → Type 0 = λ t. I t.1 × IfOk R t.0 in
      bind_rule P m f s
        (λ a e.
          k a (subst (λ (t : Result E A × Session D W). IfOk Q t.0) e (h s i).1) (m s).1 (h s i).0)
        (λ x e. ((h s i).0, tt))
