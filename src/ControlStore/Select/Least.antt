-- ===== src/ControlStore/Select/Least.antt =====
-- common/control_store/src/storage.rs and services/connector/src/main.rs: what `min_by` returns after
-- `filter`, the way both choose the least loaded.
use callifornia.ControlStore.Select.{min_from, min_by}
use callifornia.Prelude.{
  ℕ, ◌≤◌, List, [], ◌∷◌, Option, none, some, Bool, true, false, filter, ltb, ◌≡◌, refl, arith,
  if◌then◌else◌, Bool-cases, ◌⊎◌, inl, inr,
}
use mathlib.Core.List.Memᴰ
use mathlib.Core.List.{Memᴰ}

module _ {A : Type 0} (measure : A → ℕ) where
  min_from-le : (best : A) (xs : List A) → measure (min_from measure best xs) ≤ measure best
  unfolding min_from
  min_from-le best [] = omega arith
  min_from-le best (x ∷ xs) = elim (Bool-cases (ltb (measure x) (measure best))) [
    | inl e ↦ rw e (ground (arith, min_from-le x xs, e))
    | inr e ↦ rw e (min_from-le best xs)
  ]

  min_from-le_mem :
      (best y : A) (xs : List A) → Memᴰ y xs → measure (min_from measure best xs) ≤ measure y
  unfolding min_from
  min_from-le_mem best y [] m = elim m [ ]
  min_from-le_mem best y (x ∷ xs) (Memᴰ.head same) =
      rw same (elim (Bool-cases (ltb (measure x) (measure best))) [
        | inl e ↦ rw e (min_from-le x xs)
        | inr e ↦ rw e (ground (arith, min_from-le best xs, e))
      ])
  min_from-le_mem best y (x ∷ xs) (Memᴰ.tail m) =
      min_from-le_mem (if ltb (measure x) (measure best) then x else best) y xs m

  min_from-Mem : (best : A) (xs : List A) → Memᴰ (min_from measure best xs) (best ∷ xs)
  unfolding min_from
  min_from-Mem best [] = Memᴰ.head refl
  min_from-Mem best (x ∷ xs) = elim (Bool-cases (ltb (measure x) (measure best))) [
    | inl e ↦ rw e (Memᴰ.tail (min_from-Mem x xs))
    | inr e ↦ rw e (skip (min_from-Mem best xs))
  ]
    where
      skip : {m : A} → Memᴰ m (best ∷ xs) → Memᴰ m (best ∷ x ∷ xs)
      skip (Memᴰ.head same) = Memᴰ.head same
      skip (Memᴰ.tail m) = Memᴰ.tail (Memᴰ.tail m)

module _ {A : Type 0} (p : A → Bool) where
  filter-Mem : (y : A) (xs : List A) → Memᴰ y xs → p y ≡ true → Memᴰ y (filter p xs)
  filter-Mem y [] m h = elim m [ ]
  filter-Mem y (x ∷ xs) (Memᴰ.head same) h =
      let k : p x ≡ true = rw (← same) h in rw k (Memᴰ.head same)
  filter-Mem y (x ∷ xs) (Memᴰ.tail m) h = elim (Bool-cases (p x)) [
    | inl e ↦ rw e (Memᴰ.tail (filter-Mem y xs m h))
    | inr e ↦ rw e (filter-Mem y xs m h)
  ]

  Mem-step :
      (x y : A) (xs rest : List A) (b : Bool)
      → p x ≡ b
      → (Memᴰ y rest → Memᴰ y xs × (p y ≡ true))
      → Memᴰ y (if b then x ∷ rest else rest)
      → Memᴰ y (x ∷ xs) × (p y ≡ true)
  Mem-step x y xs rest false e f m = let (n, h) = f m in (Memᴰ.tail n, h)
  Mem-step x y xs rest true e f m = elim (Memᴰ.cases_cons m) [
    | inl same ↦ (Memᴰ.head same, rw same e)
    | inr n ↦ let (k, h) = f n in (Memᴰ.tail k, h)
  ]

  Mem-filter : (y : A) (xs : List A) → Memᴰ y (filter p xs) → Memᴰ y xs × (p y ≡ true)
  Mem-filter y [] m = absurd (Memᴰ.not-nil m)
  Mem-filter y (x ∷ xs) m = Mem-step x y xs (filter p xs) (p x) refl (Mem-filter y xs) m

module _ {A : Type 0} (measure : A → ℕ) (p : A → Bool) (xs : List A) where
  -- One of the elements with the property, whose measure is at most that of each of them; or there is
  -- none.
  abbrev pub IsChoice : Option A → Type 0
  IsChoice (some m) =
      Memᴰ m xs × (p m ≡ true) × ((y : A) → Memᴰ y xs → p y ≡ true → measure m ≤ measure y)
  IsChoice none = (y : A) → Memᴰ y xs → p y ≡ false

  choice :
      (ys : List A)
      → ((y : A) → Memᴰ y ys → Memᴰ y xs × (p y ≡ true))
      → ((y : A) → Memᴰ y xs → p y ≡ true → Memᴰ y ys)
      → IsChoice (min_by measure ys)
  unfolding min_by
  choice [] back forth =
      λ y m. elim (Bool-cases (p y)) [ inl e ↦ absurd (Memᴰ.not-nil (forth y m e)) | inr e ↦ e ]
  choice (x ∷ ys) back forth =
      let (m, h) = back _ (min_from-Mem measure x ys) in
      (m, h, λ y m h. least y (Memᴰ.cases_cons (forth y m h)))
    where
      least : (y : A) → (y ≡ x) ⊎ Memᴰ y ys → measure (min_from measure x ys) ≤ measure y
      least y (inl same) = rw same (min_from-le measure x ys)
      least y (inr m) = min_from-le_mem measure x y ys m

  pub min_by-IsChoice : IsChoice (min_by measure (filter p xs))
  min_by-IsChoice =
      choice (filter p xs) (λ y m. Mem-filter p y xs m) (λ y m h. filter-Mem p y xs m h)
