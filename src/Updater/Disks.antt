-- ===== src/Updater/Disks.antt =====
-- The disk of internal/updater under the operations of the file system.
use wol.Prelude.{
  Bool-cases, List, Option, Option-cases, ap, arith, inl, inr, length, length-append, none, refl,
  some, sym, ℕ, ◌++◌, ◌∙◌, ◌≡◌, ◌≢◌,
}
use wol.Text.{Text, codes, teq}
use wol.Text.Laws.{teq_iff, teq_refl}
use wol.Updater.Replace.{Disk, DiskTask, Machine, old_copy, put, remove, rename}

pub put-same : (d : Disk) (p : Text) (c : Option (List ℕ)) → put d p c p ≡ c
unfolding put
put-same d p c = rw (teq_refl p) refl

pub put-other : (d : Disk) (p q : Text) (c : Option (List ℕ)) → q ≢ p → put d p c q ≡ d q
unfolding put
put-other d p q c away = elim (Bool-cases (teq q p)) [
  | inl equal ↦ absurd (away ((teq_iff q p).0 equal))
  | inr other ↦ rw other refl
]

pub old_copy-apart : (real : Text) → old_copy real ≢ real
unfolding old_copy
old_copy-apart real e =
    let lengths : length (real ++ codes ".old") ≡ length real = ap length e in
    omega (arith, lengths, length-append real (codes ".old"))

-- A rename that works has moved the content, and it touches the two paths only.
pub record Moved (from to : Text) (d d' : Disk) : Type 0 where
  pub there : d' to ≡ d from
  pub gone : d' from ≡ none
  pub others : (q : Text) → q ≢ from → q ≢ to → d' q ≡ d q

module _ (host : Machine) where
  pub remove-other : (t : DiskTask) (d : Disk) (p q : Text) → q ≢ p → remove host t p d q ≡ d q
  unfolding remove
  remove-other t d p q away = elim (Bool-cases (host.works t)) [
    | inl y ↦ rw y (put-other d p q none away)
    | inr n ↦ rw n refl
  ]

  pub rename-Moved :
      (t : DiskTask) (from to : Text) (d d' : Disk)
      → from ≢ to
      → rename host t from to d ≡ some d'
      → Moved from to d d'
  unfolding rename
  rename-Moved t from to d d' apart h = elim (Bool-cases (host.works t)) [
    | inr n ↦ absurd (ground (arith, h))
    | inl y ↦ elim (Option-cases (d from)) [
      | inl gone ↦ absurd (ground (arith, h))
      | inr (content, held) ↦
          let made : put (put d from none) to (some content) ≡ d' = ground (arith, h) in
          record {
            there = rw (sym made) (put-same (put d from none) to (some content) ∙ sym held);
            gone =
                rw (sym made)
                  (put-other (put d from none) to from (some content) apart ∙ put-same d from none);
            others = λ q away off. rw (sym made) (
                put-other (put d from none) to q (some content) off ∙ put-other d from q none away);
          }
    ]
  ]
