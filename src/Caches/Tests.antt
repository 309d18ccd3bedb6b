-- ===== src/Caches/Tests.antt =====
-- A disk cache that keeps one entry.
use code_assist_analyzer.Prelude.{
  ℕ, ◌≡◌, Option, none, some, String, string_eq, ◌==◌, ==-cases, if◌then◌else◌, Result, ok, inl,
  inr, arith,
}
use code_assist_analyzer.Caches.{Store, local_disk_cache, get}
use code_assist_analyzer.Caches.Answers.{Filled, KeepsWhatIsSet, get-Filled}

-- it forgets what it had when another entry is set
abbrev one_entry : Store ℕ (Option (String × ℕ))
one_entry = record {
  get = λ key state. elim state [
    | none ↦ none
    | some entry ↦ if entry.0 == key then some entry.1 else none
  ];
  set = λ key value state. some (key, value);
}

abbrev fill : String → Result ℕ
fill key = ok 4

keeps : KeepsWhatIsSet one_entry fill
keeps key j value v state here = elim (==-cases key j) [
  | inl (same, h) ↦ inl (same, ground arith)
  | inr (_, h) ↦ absurd (ground arith)
]

get-Filled_example :
    ((get one_entry "k" (fill "k") (local_disk_cache none)).0 ≡ fill "k")
    × Filled one_entry fill (get one_entry "k" (fill "k") (local_disk_cache none)).1
get-Filled_example = get-Filled one_entry fill "k" (local_disk_cache none) keeps (λ key value h. cc)
