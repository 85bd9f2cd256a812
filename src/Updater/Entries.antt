-- ===== src/Updater/Entries.antt =====
-- The directories that a zip archive of internal/updater has passed the preflight with.
use wol.Prelude.{
  Bool-cases, List, Outcome-cases, arith, inl, inr, length, ltb, ok, ℕ, ◌-◌, ◌==◌, ◌↔◌, ◌≡◌, ◌≤◌,
}
use wol.Updater.Preflight.{
  Declared, check_directories, declared, find_last_end, preflight_zip_directory,
}
use wol.Updater.Zip.{Directory, count_zip_directory, count_zip_directory_exact}

-- The two positions at which a reader may look for the directory, with the bounds on each.
pub record Bounded (content : List ℕ) (max_entries : ℕ) (d : Declared) : Type 0 where
  pub few : d.records ≤ max_entries
  pub inside : (d.size ≤ d.end) × (d.offset ≤ length content)
  pub before_end : (n : ℕ) × (n ≤ max_entries) × Directory content (d.end - d.size) n
  pub declared_offset : (n : ℕ) × (n ≤ max_entries) × Directory content d.offset n

check_directories-Bounded :
    (content : List ℕ) (max_entries : ℕ) (d : Declared)
    → check_directories content max_entries d ≡ ok tt
    → Bounded content max_entries d
unfolding check_directories
check_directories-Bounded content max_entries d h = elim (Bool-cases (ltb max_entries d.records)) [
  | inl many ↦ absurd (ground (arith, h))
  | inr few ↦ elim (Outcome-cases (count_zip_directory content (d.end - d.size) max_entries)) [
    | inr (e, c) ↦ absurd (ground (arith, h))
    | inl (u, c) ↦
        let first = (count_zip_directory_exact content (d.end - d.size) max_entries).0 c in
        elim (Bool-cases (d.offset == d.end - d.size)) [
          | inl eq ↦
              let at : d.offset ≡ d.end - d.size = ground arith in
              record {
                few = ground arith;
                inside = ground (arith, h);
                before_end = first;
                declared_offset = rw at first;
              }
          | inr ne ↦ record {
            few = ground arith;
            inside = ground (arith, h);
            before_end = first;
            declared_offset =
                (count_zip_directory_exact content d.offset max_entries).0 (ground (arith, h));
          }
        ]
  ]
]

directories-check :
    (content : List ℕ) (max_entries : ℕ) (d : Declared)
    → Bounded content max_entries d
    → check_directories content max_entries d ≡ ok tt
unfolding check_directories
directories-check content max_entries d b =
    let first = (count_zip_directory_exact content (d.end - d.size) max_entries).1 b.before_end in
    let second = (count_zip_directory_exact content d.offset max_entries).1 b.declared_offset in
    ground (arith, first, second, b.few, b.inside.0, b.inside.1)

-- The preflight accepts an archive exactly if the end of its directory is found and read, the number
-- of records that it declares is allowed, its size and offset lie inside, and at most the allowed
-- number of whole records follow one another from either position that a reader may start at: the
-- declared offset, and the declared size before the end.
pub preflight_zip_directory_exact :
    (content : List ℕ) (max_entries : ℕ)
    → (preflight_zip_directory content max_entries ≡ ok tt) ↔ (
        (end : ℕ) × (d : Declared) × (find_last_end content ≡ ok end)
        × (declared content end ≡ ok d)
        × Bounded content max_entries d)
unfolding preflight_zip_directory
preflight_zip_directory_exact content max_entries = (
  λ h. elim (Outcome-cases (find_last_end content)) [
    | inr (e, f) ↦ absurd (ground (arith, h))
    | inl (end, f) ↦ elim (Outcome-cases (declared content end)) [
      | inr (e, g) ↦ absurd (ground (arith, h))
      | inl (d, g) ↦
          (end, d, f, g, check_directories-Bounded content max_entries d (ground (arith, h)))
    ]
  ],
  λ (end, d, f, g, b).
      let checked = directories-check content max_entries d b in ground (arith, checked),
)
