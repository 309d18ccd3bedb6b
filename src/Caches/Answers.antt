-- ===== src/Caches/Answers.antt =====
-- What the caches answer (dataset_toolkit/cache.py, local_disk_cache.py).
use code_assist_analyzer.Prelude.{
  ◌⊎◌, some, String, Result, ok, Result-cases, Option-cases, ◌≡◌, refl, sym, ap, ◌∙◌, inl, inr,
}
use code_assist_analyzer.Caches.{Store, Cache, null_cache, local_disk_cache, get}

module _ {Value State : Type 0} (store : Store Value State) (fill : String → Result Value) where
  -- every entry of the cache is what the fill function returns for its key
  abbrev pub Filled : Cache State → Type 0
  Filled null_cache = Unit
  Filled (local_disk_cache state) =
      (key : String) (value : Value) → store.get key state ≡ some value → fill key ≡ ok value

  -- what the store promises of what it keeps: it answers with a value that was set for the key, or
  -- with what it had; it may also forget
  abbrev pub KeepsWhatIsSet : Type 0
  KeepsWhatIsSet =
      (key j : String) (value v : Value) (state : State)
      → store.get j (store.set key value state) ≡ some v
      → ((key ≡ j) × (value ≡ v)) ⊎ (store.get j state ≡ some v)

  -- A cache with the entries of the fill function is transparent: it answers what the fill function
  -- returns or raises, and keeps to its entries, whatever the store forgets.
  pub get-Filled :
      (key : String) (cache : Cache State)
      → KeepsWhatIsSet
      → Filled cache
      → ((get store key (fill key) cache).0 ≡ fill key) × Filled (get store key (fill key) cache).1
  unfolding get
  get-Filled key null_cache keeps filled = (refl, tt)
  get-Filled key (local_disk_cache state) keeps filled = elim (Option-cases (store.get key state)) [
    | inr (value, hit) ↦ rw (get, hit) (sym (filled key value hit), filled)
    | inl miss ↦ elim (Result-cases (fill key)) [
      | inr (e, fails) ↦ rw (get, miss, fails) (refl, filled)
      | inl (value, fills) ↦
          rw (get, miss, fills)
            (
              refl,
              λ j v here. elim (keeps key j value v state here) [
                | inl (same, is) ↦ ap fill (sym same) ∙ fills ∙ ap ok is
                | inr before ↦ filled j v before
              ],
            )
    ]
  ]
