-- ===== src/Store/Logic.antt =====
-- Rules for what an operation of the store ensures of closed tables.
use wol.Prelude.{Bool, Option-cases, Outcome, Outcome-cases, arith, false, inl, inr, ok, ℕ, ◌≡◌}
use wol.Store.{InventoryError}
use wol.Store.Db.{
  Db, Env, SqlError, Tables, World, exec, fresh_id, lift, need_row, new_id, pure, query, raise_if,
  stamp, ◌>>=◌,
}
use wol.Store.Links.{IsClosed, Known, Within, known_in}
use wol.Text.{Text}

pub Within_refl : (k : Known) → Within k k
Within_refl k = record { relay = λ _ h. h; site = λ _ h. h; group = λ _ h. h; device = λ _ h. h }

Within_trans : (a b c : Known) → Within a b → Within b c → Within a c
Within_trans a b c f g = record {
  relay = λ id h. g.relay id (f.relay id h);
  site = λ id h. g.site id (f.site id h);
  group = λ id h. g.group id (f.group id h);
  device = λ id h. g.device id (f.device id h);
}

-- The tables stay closed, nothing that was known is lost, and a condition holds.
pub record Good (t t' : Tables) (Q : Type 0) : Type 0 where
  pub closed : IsClosed t'
  pub grown : Within (known_in t) (known_in t')
  pub holds : Q

-- A condition that lasts while the tables grow.
abbrev pub Stable : (Tables → Type 0) → Type 0
Stable K = (t t' : Tables) → Within (known_in t) (known_in t') → K t → K t'

-- What a statement ensures when it succeeds.
abbrev pub Writes :
    (Tables → Type 0) → (Tables → Outcome SqlError (ℕ × Tables)) → (Tables → Type 0) → Type 0
Writes P write Q =
    (t : Tables) (n : ℕ) (t' : Tables) → IsClosed t → P t → write t ≡ ok (n, t') → Good t t' (Q t')

-- What an operation ensures when it succeeds.
pub record Ensures {A : Type 0} (P : Tables → Type 0) (m : Db A) (Q : A → Tables → Type 0)
    : Type 0 where
  pub run :
      (w : World) (a : A)
      → IsClosed w.tables
      → P w.tables
      → (m w).0 ≡ ok a
      → Good w.tables (m w).1.tables (Q a (m w).1.tables)

good_same : (t : Tables) (Q : Type 0) → IsClosed t → Q → Good t t Q
good_same t Q c q = record { closed = c; grown = Within_refl (known_in t); holds = q }

good_step : (t t' t'' : Tables) (P Q : Type 0) → Good t t' P → Good t' t'' Q → Good t t'' Q
good_step t t' t'' P Q f g = record {
  closed = g.closed;
  grown = Within_trans (known_in t) (known_in t') (known_in t'') f.grown g.grown;
  holds = g.holds;
}

module _ {A B : Type 0} (P : Tables → Type 0) where
  pub Ensures-bind :
      (m : Db A) (R : A → Tables → Type 0) (f : A → Db B) (Q : B → Tables → Type 0)
      → Ensures P m R
      → ((a : A) → Ensures (R a) (f a) Q)
      → Ensures P (m >>= f) Q
  unfolding ◌>>=◌
  Ensures-bind m R f Q hm hf = record {
    run = λ w b c p e. elim (Outcome-cases (m w).0) [
      | inr (x, r) ↦ cc (rw (r, ◌>>=◌) at e)
      | inl (a, r) ↦
          let g = hm.run w a c p r in
          let done : (f a (m w).1).0 ≡ ok b = rw (r, ◌>>=◌) at e in
          rw (r, ◌>>=◌)
            (good_step w.tables (m w).1.tables (f a (m w).1).1.tables _ _ g
              ((hf a).run (m w).1 b g.closed g.holds done))
    ];
  }

module _ {A : Type 0} (P : Tables → Type 0) where
  pub Ensures-pure : (a : A) → Ensures P (pure a) (λ b t. P t × (b ≡ a))
  unfolding pure
  Ensures-pure a = record { run = λ w b c p e. good_same w.tables _ c (p, ground arith) }

  pub Ensures-lift : (r : Outcome InventoryError A) → Ensures P (lift r) (λ b t. P t × (r ≡ ok b))
  unfolding lift
  Ensures-lift r = record { run = λ w b c p e. good_same w.tables _ c (p, e) }

  pub Ensures-query :
      (env : Env) (read : Tables → A) → Ensures P (query env read) (λ a t. P t × (read t ≡ a))
  unfolding query
  Ensures-query env read = record {
    run = λ w a c p e. elim (Option-cases (env.fault w.tick)) [
      | inr (m, f) ↦ cc (rw (f, query) at e)
      | inl f ↦ rw (f, query) (good_same w.tables _ c (p, ground arith))
    ];
  }

  pub Ensures-weaken :
      (m : Db A) (R : Tables → Type 0) (S Q : A → Tables → Type 0)
      → ((t : Tables) → P t → R t)
      → ((a : A) (t : Tables) → S a t → Q a t)
      → Ensures R m S
      → Ensures P m Q
  Ensures-weaken m R S Q f g h = record {
    run = λ w a c p e.
        let k = h.run w a c (f w.tables p) e in
        record { closed = k.closed; grown = k.grown; holds = g a _ k.holds };
  }

  -- A condition that lasts is there behind the operation as well.
  pub Ensures-frame :
      (K : Tables → Type 0) (m : Db A) (Q : A → Tables → Type 0)
      → Stable K
      → Ensures P m Q
      → Ensures (λ t. K t × P t) m (λ a t. K t × Q a t)
  Ensures-frame K m Q s h = record {
    run = λ w a c (k, p) e.
        let g = h.run w a c p e in
        record { closed = g.closed; grown = g.grown; holds = (s _ _ g.grown k, g.holds) };
  }

pub Ensures-exec :
    (P Q : Tables → Type 0) (env : Env) (wrap : SqlError → InventoryError)
    (write : Tables → Outcome SqlError (ℕ × Tables))
    → Writes P write Q
    → Ensures P (exec env wrap write) (λ _ t. Q t)
unfolding exec
Ensures-exec P Q env wrap write h = record {
  run = λ w n c p e. elim (Option-cases (env.fault w.tick)) [
    | inr (m, f) ↦ cc (rw (f, exec) at e)
    | inl f ↦ elim (Outcome-cases (write w.tables)) [
      | inr (x, r) ↦ absurd (ground arith)
      | inl ((k, t'), r) ↦ rw (f, r, exec) (h w.tables k t' c p r)
    ]
  ];
}

pub Ensures-stamp : (P : Tables → Type 0) (env : Env) → Ensures P (stamp env) (λ _ t. P t)
unfolding stamp
Ensures-stamp P env = record { run = λ w a c p e. good_same w.tables _ c p }

pub Ensures-fresh_id :
    (P : Tables → Type 0) (env : Env) (prefix : Text)
    → Ensures P (fresh_id env prefix) (λ id t. P t × ((k : ℕ) × (id ≡ new_id env prefix k)))
unfolding fresh_id
Ensures-fresh_id P env prefix = record {
  run = λ w a c p e. good_same w.tables _ c (p, (w.tick, ground arith));
}

pub Ensures-need_row : (P : Tables → Type 0) (n : ℕ) → Ensures P (need_row n) (λ _ t. P t)
unfolding need_row raise_if
Ensures-need_row P n = record { run = λ w a c p e. good_same w.tables _ c p }

pub Ensures-raise_if :
    (P : Tables → Type 0) (test : Bool) (e : InventoryError)
    → Ensures P (raise_if test e) (λ _ t. P t × (test ≡ false))
unfolding raise_if
Ensures-raise_if P test x = record { run = λ w b c p e. good_same w.tables _ c (p, ground arith) }
