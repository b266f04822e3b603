-- ===== src/Prelude/Session.antt =====
-- A request handler of a service: a database session (SQLAlchemy's `AsyncSession`), exceptions, and
-- the services that it calls. `durable` is what has been committed, `working` what the session
-- sees; a raise leaves both as they are, and the end of the request drops what was not committed.
-- A call of another service acts on `world`, which no rollback reaches.
use Prim.Native.Nat.{ℕ}
use mathlib.Core.Path.{◌≡◌, refl, sym, ap, subst, ◌∙◌}
use mathlib.Core.Logic.{◌⊎◌, inl, inr}
use mathlib.Core.Bool.{Bool}
use mathlib.Core.Option.{Option, none, some}
use market_place_app.Prelude.Tests.{if◌then◌else◌}

pub data Result {ℓ} (E A : Type ℓ) : Type ℓ where
  ok : A → Result E A
  err : E → Result E A

-- What a handler raises: a `ServiceError` with its HTTP status and code (its message is left out),
-- a violated constraint of the database, or a missing key of a dict.
pub data Failure {ℓ} (C : Type ℓ) : Type ℓ where
  service_error : ℕ → C → Failure C
  integrity_error : Failure C
  key_error : Failure C

pub record Session {ℓ} (D W : Type ℓ) : Type ℓ where
  pub durable : D
  pub working : D
  pub world : W

-- What a handler with database `D`, surroundings `W` and errors `E` does to its session.
abbrev pub Tx {ℓ} : Type ℓ → Type ℓ → Type ℓ → Type ℓ → Type ℓ
Tx D W E A = Session D W → Result E A × Session D W

module _ {ℓ} {D W E A : Type ℓ} where
  abbrev pub pure : A → Tx D W E A
  pure a s = (ok a, s)

  abbrev pub raise : E → Tx D W E A
  raise e s = (err e, s)

  -- A query.
  abbrev pub query : (D → A) → Tx D W E A
  query f s = (ok (f s.working), s)

  -- `if not row: raise`
  abbrev pub or_raise : Option A → E → Tx D W E A
  or_raise none e s = (err e, s)
  or_raise (some a) e s = (ok a, s)

  -- A call of another service.
  abbrev pub remote : (W → Result E A × W) → Tx D W E A
  remote f s = let (r, w) = f s.world in (r, record s { world = w })

module _ {ℓ} {D W E A B : Type ℓ} where
  infixl 5 ◌>>=◌ ◌>>◌
  abbrev pub ◌>>=◌ : Tx D W E A → (A → Tx D W E B) → Tx D W E B
  ◌>>=◌ m f s = let (r, s') = m s in elim r [ ok a ↦ f a s' | err e ↦ (err e, s') ]

  abbrev pub ◌>>◌ : Tx D W E A → Tx D W E B → Tx D W E B
  m >> k = m >>= λ _. k

module _ {ℓ} {D W E : Type ℓ} where
  -- `if test: raise`
  abbrev pub raise_if : Bool → E → Tx D W E (Unit {ℓ})
  raise_if b e s = (if b then err e else ok tt, s)

  -- `session.add(...)`, and a write to a loaded row.
  abbrev pub modify : (D → D) → Tx D W E (Unit {ℓ})
  modify f s = (ok tt, record s { working = f s.working })

  abbrev pub commit : Tx D W E (Unit {ℓ})
  commit s = (ok tt, record s { durable = s.working })

  abbrev pub rollback : Tx D W E (Unit {ℓ})
  rollback s = (ok tt, record s { working = s.durable })

  -- A call that cannot fail.
  abbrev pub notify : (W → W) → Tx D W E (Unit {ℓ})
  notify f s = (ok tt, record s { world = f s.world })

  -- What other requests committed meanwhile, for a session that has written nothing yet.
  abbrev pub interleave : (D → D) → Tx D W E (Unit {ℓ})
  interleave f s = (ok tt, record s { durable = f s.durable; working = f s.durable })

abbrev pub handled {ℓ} : {C A : Type ℓ} → Result (Failure C) A → Result (Failure C) (Unit {ℓ})
handled (ok a) = ok tt
handled (err (service_error n c)) = ok tt
handled (err integrity_error) = err integrity_error
handled (err key_error) = err key_error

-- `try: ... except ServiceError: pass`
abbrev pub try_pass {ℓ} : {D W C A : Type ℓ} → Tx D W (Failure C) A → Tx D W (Failure C) (Unit {ℓ})
try_pass m s = let (r, s') = m s in (handled r, s')

module _ {ℓ} {D W E A : Type ℓ} where
  -- A whole request: a fresh session, and at its end only what was committed is kept.
  abbrev pub request : Tx D W E A → D → W → Result E A × D × W
  request m d w =
      let (r, s) = m (record { durable = d; working = d; world = w }) in (r, s.durable, s.world)

-- A computed result is one of the two, with its equation.
pub Result-cases {ℓ} :
    {E A : Type ℓ} (r : Result E A) → ((a : A) × (r ≡ ok a)) ⊎ ((e : E) × (r ≡ err e))
Result-cases (ok a) = inl (a, refl)
Result-cases (err e) = inr (e, refl)

-- A bind commits nothing where its parts commit nothing.
pub bind_keeps {ℓ} :
    {D W E A B : Type ℓ} (m : Tx D W E A) (f : A → Tx D W E B) (s : Session D W)
    → (m s).1.durable ≡ s.durable
    → ((a : A) (s' : Session D W) → (f a s').1.durable ≡ s'.durable)
    → ((m >>= f) s).1.durable ≡ s.durable
bind_keeps m f s h k = elim (Result-cases (m s).0) [
  | inl (a, e) ↦ rw (e, ◌>>=◌) (k a (m s).1 ∙ h)
  | inr (x, e) ↦ rw (e, ◌>>=◌) h
]

-- A bind goes on where its first part answers, and ends where that raises.
pub bind_ok {ℓ} :
    {D W E A B : Type ℓ} (m : Tx D W E A) (f : A → Tx D W E B) (s s' : Session D W) (a : A)
    → m s ≡ (ok a, s')
    → (m >>= f) s ≡ f a s'
bind_ok m f s s' a e = ap (λ (t : _). elim t.0 [ ok b ↦ f b t.1 | err x ↦ (err x, t.1) ]) e

pub bind_err {ℓ} :
    {D W E A B : Type ℓ} (m : Tx D W E A) (f : A → Tx D W E B) (s s' : Session D W) (x : E)
    → m s ≡ (err x, s')
    → (m >>= f) s ≡ (err x, s')
bind_err m f s s' x e = ap (λ (t : _). elim t.0 [ ok b ↦ f b t.1 | err x ↦ (err x, t.1) ]) e

-- The rule of a bind: a property of its end, from that of its second part, or of a raise.
pub bind_rule {ℓ} :
    {D W E A B : Type ℓ} (P : Result E B × Session D W → Type ℓ) (m : Tx D W E A)
    (f : A → Tx D W E B) (s : Session D W)
    → ((a : A) → m s ≡ (ok a, (m s).1) → P (f a (m s).1))
    → ((x : E) → m s ≡ (err x, (m s).1) → P (err x, (m s).1))
    → P ((m >>= f) s)
bind_rule {D} {W} {E} {A} {B} P m f s on_ok on_err =
    let with_end : Result E A → Result E A × Session D W = λ r. (r, (m s).1) in
    elim (Result-cases (m s).0) [
      | inl (a, e) ↦
          subst P (sym (bind_ok m f s (m s).1 a (ap with_end e))) (on_ok a (ap with_end e))
      | inr (x, e) ↦
          subst P (sym (bind_err m f s (m s).1 x (ap with_end e))) (on_err x (ap with_end e))
    ]
