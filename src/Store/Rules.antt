-- ===== src/Store/Rules.antt =====
-- The rules of `Logic`, each for an operation that begins with one step.
use wol.Prelude.{Bool, Option, Outcome, err, false, none, ok, some, ℕ, ◌≡◌}
use wol.Store.{InventoryError}
use wol.Store.Db.{
  Db, Env, SqlError, Tables, exec, fresh_id, lift, need_row, new_id, pure, query, raise_if, stamp,
  ◌>>=◌,
}
use wol.Store.Logic.{
  Ensures, Ensures-bind, Ensures-exec, Ensures-frame, Ensures-fresh_id, Ensures-lift,
  Ensures-need_row, Ensures-pure, Ensures-query, Ensures-raise_if, Ensures-stamp, Ensures-weaken,
  Stable, Writes,
}
use wol.Text.{Text}

found :
    {A B : Type 0} (P : Tables → Type 0) (Q : B → Tables → Type 0) (read : Tables → Option A)
    (f : Option A → Db B)
    → Ensures (λ t. P t × (read t ≡ none)) (f none) Q
    → ((a : A) → Ensures (λ t. P t × (read t ≡ some a)) (f (some a)) Q)
    → (x : Option A) → Ensures (λ t. P t × (read t ≡ x)) (f x) Q
found P Q read f g h none = g
found P Q read f g h (some a) = h a

module _ {B : Type 0} {P : Tables → Type 0} {Q : B → Tables → Type 0} where
  pub return : (b : B) → ((t : Tables) → P t → Q b t) → Ensures P (pure b) Q
  return b h =
      Ensures-weaken P (pure b) P (λ a t. P t × (a ≡ b)) Q (λ t p. p) (λ a t (p, e). rw e (h t p))
        (Ensures-pure P b)

  pub then_stamp :
      (env : Env) (f : Text → Db B)
      → ((now : Text) → Ensures P (f now) Q)
      → Ensures P (stamp env >>= f) Q
  then_stamp env f h = Ensures-bind P (stamp env) (λ _ t. P t) f Q (Ensures-stamp P env) h

  pub then_query :
      {A : Type 0} (env : Env) (read : Tables → A) (f : A → Db B)
      → ((a : A) → Ensures (λ t. P t × (read t ≡ a)) (f a) Q)
      → Ensures P (query env read >>= f) Q
  then_query env read f h =
      Ensures-bind P (query env read) (λ a t. P t × (read t ≡ a)) f Q (Ensures-query P env read) h

  pub then_find :
      {A : Type 0} (env : Env) (read : Tables → Option A) (f : Option A → Db B)
      → Ensures (λ t. P t × (read t ≡ none)) (f none) Q
      → ((a : A) → Ensures (λ t. P t × (read t ≡ some a)) (f (some a)) Q)
      → Ensures P (query env read >>= f) Q
  then_find env read f g h = then_query env read f (found P Q read f g h)

  pub then_need_row :
      (n : ℕ) (f : Unit {0} → Db B)
      → ((u : Unit {0}) → Ensures P (f u) Q)
      → Ensures P (need_row n >>= f) Q
  then_need_row n f h = Ensures-bind P (need_row n) (λ _ t. P t) f Q (Ensures-need_row P n) h

  -- What was read from outside of the tables is known for good.
  pub then_lift :
      {A : Type 0} (r : Outcome InventoryError A) (f : A → Db B)
      → ((a : A) → r ≡ ok a → Ensures P (f a) Q)
      → Ensures P (lift r >>= f) Q
  then_lift r f h =
      Ensures-bind P (lift r) (λ a t. P t × (r ≡ ok a)) f Q (Ensures-lift P r)
        (λ a. record { run = λ w b c (p, e). (h a e).run w b c p })

  pub then_raise_if :
      (test : Bool) (e : InventoryError) (f : Unit {0} → Db B)
      → ((u : Unit {0}) → test ≡ false → Ensures P (f u) Q)
      → Ensures P (raise_if test e >>= f) Q
  then_raise_if test x f h =
      Ensures-bind P (raise_if test x) (λ _ t. P t × (test ≡ false)) f Q (Ensures-raise_if P test x)
        (λ u. record { run = λ w b c (p, e). (h u e).run w b c p })

  pub then_fresh_id :
      (env : Env) (prefix : Text) (f : Text → Db B)
      → ((k : ℕ) → Ensures P (f (new_id env prefix k)) Q)
      → Ensures P (fresh_id env prefix >>= f) Q
  then_fresh_id env prefix f h =
      Ensures-bind P (fresh_id env prefix) (λ id t. P t × ((k : ℕ) × (id ≡ new_id env prefix k))) f
        Q (Ensures-fresh_id P env prefix)
        (λ id. record {
          run = λ w b c (p, (k, e)) d. let g : Ensures P (f id) Q = rw e (h k) in g.run w b c p d;
        })

  -- A stronger precondition serves as well.
  pub given :
      (R : Tables → Type 0) (m : Db B) → ((t : Tables) → P t → R t) → Ensures R m Q → Ensures P m Q
  given R m f h = Ensures-weaken P m R Q Q f (λ a t q. q) h

-- A statement, beside a condition that lasts.
module _ {B : Type 0} {P R : Tables → Type 0} {Q : B → Tables → Type 0} where
  pub then_exec :
      (K : Tables → Type 0) (env : Env) (wrap : SqlError → InventoryError)
      (write : Tables → Outcome SqlError (ℕ × Tables)) (f : ℕ → Db B)
      → Stable K
      → Writes P write R
      → ((n : ℕ) → Ensures (λ t. K t × R t) (f n) Q)
      → Ensures (λ t. K t × P t) (exec env wrap write >>= f) Q
  then_exec K env wrap write f s h g =
      Ensures-bind (λ t. K t × P t) (exec env wrap write) (λ _ t. K t × R t) f Q
        (Ensures-frame P K (exec env wrap write) (λ _ t. R t) s (Ensures-exec P R env wrap write h))
        g

pub then_do :
    {A B : Type 0} {P : Tables → Type 0} (R : A → Tables → Type 0) {Q : B → Tables → Type 0}
    (m : Db A) (f : A → Db B)
    → Ensures P m R
    → ((a : A) → Ensures (R a) (f a) Q)
    → Ensures P (m >>= f) Q
then_do {P = P} R {Q = Q} m f g h = Ensures-bind P m R f Q g h

module _ {B : Type 0} {P : Tables → Type 0} {Q : B → Tables → Type 0} where
  pub failed : (e : InventoryError) → Ensures P (lift (err e)) Q
  unfolding lift
  failed e = record { run = λ w a c p h. cc h }

  pub returned : (b : B) → ((t : Tables) → P t → Q b t) → Ensures P (lift (ok b)) Q
  unfolding lift pure
  returned b h = return b h

-- An operation, beside a condition that lasts.
pub then_call :
    {A B : Type 0} {P : Tables → Type 0} {R : A → Tables → Type 0} {Q : B → Tables → Type 0}
    (K : Tables → Type 0) (m : Db A) (f : A → Db B)
    → Stable K
    → Ensures P m R
    → ((a : A) → Ensures (λ t. K t × R a t) (f a) Q)
    → Ensures (λ t. K t × P t) (m >>= f) Q
then_call {P = P} {R = R} {Q = Q} K m f s h g =
    Ensures-bind (λ t. K t × P t) m (λ a t. K t × R a t) f Q (Ensures-frame P K m R s h) g
